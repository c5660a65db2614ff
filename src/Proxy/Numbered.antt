-- ===== src/Proxy/Numbered.antt =====
-- The ids of the JSON-RPC requests that one proxy client and its clones (src/client.rs) send.
use clavenar_sdk.Prelude.{
  ℕ, ◌+◌, ◌^◌, ◌<◌, ◌≡◌, refl, sym, ap, subst, arith, String, ◌<>◌, List, [], ◌∷◌, length, ◌⊎◌, inl,
  inr,
}
use clavenar_sdk.Effects.{Result, ok, err, lift, on_err, map_err, continue, ◌>>=◌}
use clavenar_sdk.Client.{
  json_value, HttpRequest, HttpResponse, ClavenarClient, Machine, Call, sent, logged,
}
use clavenar_sdk.Error.{ClavenarError, invalid_config, transport}
use clavenar_sdk.Execution.Authorize.{Action, send}
use clavenar_sdk.Http.{read_text_limited}
use clavenar_sdk.Json.{Value, Fields, pos_int, number, string, object, end, field}
use clavenar_sdk.Platform.{Platform}
use clavenar_sdk.Service.Members.{members}
use clavenar_sdk.Proxy.{
  first_id, fetch_add, dispatch, raw_request, request_body, send_raw, send_jsonrpc, call_tool,
}

-- A call that takes an id from the counter.
pub data RpcCall : Type 0 where
  tool : String → Value → RpcCall
  method : String → Value → RpcCall

module _ (p : Platform) {W : Type 0} (client : ClavenarClient W) where
  -- The call with this counter, and the counter after it.
  abbrev pub perform : RpcCall → ℕ → Action W Value × ℕ
  unfolding call_tool send_jsonrpc
  perform (tool name arguments) next = call_tool p client name arguments next
  perform (method name params) next = send_jsonrpc p client name params next

  -- The calls one after the other, each with the counter as the calls before have left it.
  unfoldable pub perform_all : List RpcCall → ℕ → Machine W → Machine W
  perform_all [] next s = s
  perform_all (c ∷ calls) next s = perform_all calls (perform c next).1 ((perform c next).0 s).1

-- The requests of a log, the newest first, carry ids that go down from below a bound and stay
-- above zero, each as the one member `id` of a JSON body; and nothing else was called.
pub data Numbered : ℕ → List Call → Type 0 where
  none_sent : {bound : ℕ} → Numbered bound []
  one_sent :
      {bound : ℕ} {calls : List Call} {request : HttpRequest} {answer : Result String HttpResponse}
      (id : ℕ) (fields : Fields)
      → 0 < id
      → id < bound
      → request.body ≡ json_value (object fields)
      → members "id" fields ≡ number (pos_int id) ∷ []
      → Numbered id calls
      → Numbered bound (sent request answer ∷ calls)

continue-keeps :
    {S E A B : Type 0} (r : Result E A) (f : A → S → Result E B × S) (s : S)
    → ((a : A) → (f a s).1 ≡ s)
    → (continue r f s).1 ≡ s
continue-keeps (ok a) f s h = h a
continue-keeps (err e) f s h = refl

Numbered-le : {a b : ℕ} {calls : List Call} → a < b → Numbered a calls → Numbered b calls
Numbered-le h none_sent = none_sent
Numbered-le h (one_sent id fields positive below body named rest) =
    one_sent id fields positive (omega (arith, h, below)) body named rest

module _ (p : Platform) {W : Type 0} (client : ClavenarClient W) where
  -- One call: it sends nothing, or one request with its body.
  abbrev Sends : Value → Machine W → Machine W → Type 0
  Sends body s t =
      (t.calls ≡ s.calls)
      ⊎ ((endpoint : String) × (answer : Result String HttpResponse) × (t.calls
            ≡ sent (raw_request p client endpoint body) answer ∷ s.calls))

  send_raw-Sends : (body : Value) (s : Machine W) → Sends body s (send_raw p client body s).1
  unfolding send_raw send on_err logged lift ◌>>=◌
  send_raw-Sends body s =
      from_url
        (map_err (λ e. invalid_config ("join /mcp: " <> e)) (p.url_join client.base_url "mcp"))
    where
      from_url :
          (r : Result ClavenarError String)
          → Sends body s
              (continue r
                (λ endpoint. send client (raw_request p client endpoint body) >>= λ response.
                  lift (read_text_limited p response) >>= λ raw.
                  lift (dispatch p response.status raw))
                s).1
      from_url (err e) = inl refl
      from_url (ok endpoint) = inr (
        endpoint,
        (client.post (raw_request p client endpoint body) s.world).0,
        ap (λ (x : Machine W). x.calls)
            (continue-keeps
              (map_err transport (client.post (raw_request p client endpoint body) s.world).0) _ _
              (λ response. continue-keeps (read_text_limited p response) _ _ (λ raw. refl))),
      )

  -- One call with the counter `id`, below the bound on 64 bits, keeps the log numbered.
  perform-Numbered :
      (c : RpcCall) (id : ℕ) (s : Machine W)
      → 0 < id
      → Numbered id s.calls
      → Numbered (id + 1) ((perform p client c id).0 s).1.calls
  unfolding perform call_tool send_jsonrpc fetch_add
  perform-Numbered c id s positive h = of_call c
    where
      from_sends :
          (name : String) (params : Value) (t : Machine W)
          → Sends (request_body p id name params) s t
          → Numbered (id + 1) t.calls
      from_sends name params t (inl e) =
          subst (Numbered (id + 1)) (sym e) (Numbered-le (omega arith) h)
      from_sends name params t (inr (endpoint, answer, e)) =
          subst (Numbered (id + 1)) (sym e) (one_sent id _ positive (omega arith) refl refl h)

      of_call : (c : RpcCall) → Numbered (id + 1) ((perform p client c id).0 s).1.calls
      of_call (tool name arguments) =
          let params = object (field "arguments" arguments (field "name" (string name) end)) in
          let body = request_body p id "tools/call" params in
          from_sends "tools/call" params (send_raw p client body s).1 (send_raw-Sends body s)
      of_call (method name params) =
          let body = request_body p id name params in
          from_sends name params (send_raw p client body s).1 (send_raw-Sends body s)

  perform-counter :
      (c : RpcCall) (next : ℕ) → next + 1 < 2 ^ 64 → (perform p client c next).1 ≡ next + 1
  unfolding perform call_tool send_jsonrpc fetch_add
  perform-counter (tool name arguments) next h = omega (arith, h)
  perform-counter (method name params) next h = omega (arith, h)

  perform_all-from :
      (calls : List RpcCall) (next : ℕ) (s : Machine W)
      → 0 < next
      → next + length calls < 2 ^ 64
      → Numbered next s.calls
      → Numbered (next + length calls) (perform_all p client calls next s).calls
  unfolding perform_all
  perform_all-from [] next s positive small h = subst (λ n. Numbered n s.calls) (omega arith) h
  perform_all-from (c ∷ calls) next s positive small h =
      let t = ((perform p client c next).0 s).1 in
      subst (λ n. Numbered (next + length (c ∷ calls)) (perform_all p client calls n t).calls)
        (sym (perform-counter c next (omega (arith, small))))
        (subst (λ n. Numbered n (perform_all p client calls (next + 1) t).calls) (omega arith)
          (perform_all-from calls (next + 1) t (omega arith) (omega (arith, small))
            (perform-Numbered c next s positive h)))

  -- Fewer than 2 ^ 64 - 1 calls of a client that was just built, by it or its clones, whatever is
  -- answered to them, send no two requests with the same id: the ids of what they send are
  -- positive, at most the count of the calls, and rise from call to call; and nothing else is called.
  pub perform_all-Numbered :
      (calls : List RpcCall) (s : Machine W)
      → s.calls ≡ []
      → 1 + length calls < 2 ^ 64
      → Numbered (1 + length calls) (perform_all p client calls first_id s).calls
  perform_all-Numbered calls s fresh small =
      perform_all-from calls first_id s (omega arith) small
        (subst (Numbered 1) (sym fresh) none_sent)
