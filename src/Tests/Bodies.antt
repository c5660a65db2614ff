-- ===== src/Tests/Bodies.antt =====
-- Response bodies of src/http.rs at concrete inputs.
use clavenar_sdk.Prelude.{ℕ, ◌≤◌, ◌≡◌, refl, arith, List, [], ◌∷◌, some, length, false}
use clavenar_sdk.Effects.{ok}
use clavenar_sdk.Client.{HttpResponse}
use clavenar_sdk.Http.{exceeds, read_body_limited, read_chunks}
use clavenar_sdk.Http.Bounds.{delivered, read_body_limited-ok, read_body_limited-total}

abbrev response : HttpResponse
response = record {
  status = 200;
  content_length = some 3;
  chunks = ok (1 ∷ (2 ∷ [])) ∷ (ok (3 ∷ []) ∷ []);
}

abbrev whole : List ℕ
whole = 1 ∷ (2 ∷ (3 ∷ []))

reads : read_body_limited response 5 ≡ ok whole
unfolding read_body_limited read_chunks
reads = refl

read_body_limited-ok_example :
    (delivered response.chunks ≡ some whole)
    × (length whole ≤ 5)
    × (exceeds response.content_length 5 ≡ false)
read_body_limited-ok_example = read_body_limited-ok response 5 whole reads

read_body_limited-total_example : read_body_limited response 5 ≡ ok whole
read_body_limited-total_example =
    read_body_limited-total response 5 whole (omega arith) refl (omega arith) refl
