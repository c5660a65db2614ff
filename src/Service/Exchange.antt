-- ===== src/Service/Exchange.antt =====
-- Operations that make at most one exchange with the server.
use clavenar_sdk.Prelude.{ℕ, String, ◌≡◌, refl, ◌∙◌, ◌⊎◌, inl, inr}
use clavenar_sdk.Effects.{Result, ok, err, map_err, Run, pure, lift, on_err, ◌>>=◌, continue}
use clavenar_sdk.Error.{ClavenarError, transport}
use clavenar_sdk.Service.{Request, Reply, Provider, send}

-- A run that leaves the outside world alone.
abbrev pub IsSilent : {W A : Type 0} → Run W ClavenarError A → Type 0
IsSilent {W} m = (w : W) → (m w).1 ≡ w

pub lift-IsSilent : {W A : Type 0} (r : Result ClavenarError A) → IsSilent {W = W} (lift r)
unfolding lift
lift-IsSilent r w = refl

pub pure-IsSilent : {W A : Type 0} (a : A) → IsSilent {W = W} (pure a)
unfolding pure
pure-IsSilent a w = refl

module _ {W A B : Type 0} where
  continue-IsSilent :
      (f : A → Run W ClavenarError B)
      → ((a : A) → IsSilent (f a))
      → (r : Result ClavenarError A) (w : W) → (continue r f w).1 ≡ w
  continue-IsSilent f k (ok a) w = k a w
  continue-IsSilent f k (err e) w = refl

  pub >>=-IsSilent :
      (m : Run W ClavenarError A) (f : A → Run W ClavenarError B)
      → IsSilent m
      → ((a : A) → IsSilent (f a))
      → IsSilent (m >>= f)
  unfolding ◌>>=◌
  >>=-IsSilent m f h k w = continue-IsSilent f k (m w).0 (m w).1 ∙ h w

-- The run fails before it does anything, or makes exactly one exchange, of a request in `P`; and
-- where it then succeeds, the status of the answer is in `Q`.
abbrev pub Exchanged :
    {W A : Type 0}
    → Provider W
    → (Request → Type 0)
    → (ℕ → Type 0)
    → W
    → Result ClavenarError A × W
    → Type 0
Exchanged {W} {A} provider P Q w x =
    ((e : ClavenarError) × (x ≡ (err e, w)))
    ⊎ ((r : Request) × (P r
          × ((x.1 ≡ (provider r w).1)
              × ((a : A)
                  → x.0 ≡ ok a
                  → (reply : Reply) × (((provider r w).0 ≡ ok reply) × Q reply.response.status)))))

abbrev pub Exchanges :
    {W A : Type 0} → Provider W → (Request → Type 0) → (ℕ → Type 0) → Run W ClavenarError A → Type 0
Exchanges {W} provider P Q op = (w : W) → Exchanged provider P Q w (op w)

module _ {W A : Type 0} (provider : Provider W) (P : Request → Type 0) (Q : ℕ → Type 0) where
  -- The rest of the run does nothing but read the reply.
  pub send>>=-Exchanges :
      (r : Request) (k : Reply → Run W ClavenarError A)
      → P r
      → ((reply : Reply) → IsSilent (k reply))
      → ((reply : Reply) (w : W) (a : A) → (k reply w).0 ≡ ok a → Q reply.response.status)
      → Exchanges provider P Q (send provider r >>= k)
  unfolding ◌>>=◌ send on_err
  send>>=-Exchanges r k h silent answered w =
      inr (r, (h, (same (provider r w).0 (provider r w).1, read (provider r w).0 (provider r w).1)))
    where
      same : (x : Result String Reply) (v : W) → (continue (map_err transport x) k v).1 ≡ v
      same (ok reply) v = silent reply v
      same (err e) v = refl

      read :
          (x : Result String Reply) (v : W) (a : A)
          → (continue (map_err transport x) k v).0 ≡ ok a
          → (reply : Reply) × ((x ≡ ok reply) × Q reply.response.status)
      read (ok reply) v a e = (reply, (refl, answered reply v a e))
      read (err e) v a h' = cc

  pub lift>>=-Exchanges :
      {B : Type 0} (x : Result ClavenarError B) (f : B → Run W ClavenarError A)
      → ((b : B) → x ≡ ok b → Exchanges provider P Q (f b))
      → Exchanges provider P Q (lift x >>= f)
  unfolding ◌>>=◌ lift
  lift>>=-Exchanges (ok b) f h w = h b refl w
  lift>>=-Exchanges (err e) f h w = inl (e, refl)

module _ {W A B : Type 0} (provider : Provider W) (P : Request → Type 0) (Q : ℕ → Type 0) where
  -- What comes after an exchange does nothing but read its result.
  pub >>=-Exchanges :
      (m : Run W ClavenarError A) (f : A → Run W ClavenarError B)
      → Exchanges provider P Q m
      → ((a : A) → IsSilent (f a))
      → Exchanges provider P Q (m >>= f)
  unfolding ◌>>=◌
  >>=-Exchanges m f h silent w = after (m w).0 (m w).1 (h w)
    where
      after :
          (x : Result ClavenarError A) (v : W)
          → Exchanged provider P Q w (x, v)
          → Exchanged provider P Q w (continue x f v)
      after (err e) v (inl (e', q)) = inl (e, cc)
      after (ok a) v (inl (e', q)) = cc
      after (err e) v (inr (r, (h', (q, k)))) = inr (r, (h', (q, λ b e'. cc)))
      after (ok a) v (inr (r, (h', (q, k)))) = inr (r, (h', (silent a v ∙ q, λ b e'. k a refl)))
