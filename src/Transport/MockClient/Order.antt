-- ===== src/Transport/MockClient/Order.antt =====
-- The order of the answers of the mock client: internal/github/mock.go.
use scafctl_plugin_auth_gith.Prelude.{
  arith, ℕ, zero, suc, ◌+◌, none, some, List, [], ◌∷◌, ◌++◌, ◌≡◌, refl, sym, ◌∙◌, ap,
}
use scafctl_plugin_auth_gith.Effect.{Result, ok}
use scafctl_plugin_auth_gith.Types.{Response}
use scafctl_plugin_auth_gith.Transport.MockClient.{
  MockRequest, MockResponse, MockClient, get_elem?, canned, no_mock_response, next_response, answer,
}
use mathlib.Core.List.{append_assoc, append-nil}

-- A run of requests, and what is answered.
unfoldable pub serve : List MockRequest → MockClient → List (Result Response) × MockClient
serve [] m = ([], m)
serve (q ∷ qs) m = let (r, n) = next_response q m in let (rs, k) = serve qs n in (r ∷ rs, k)

-- The responses one after the other, then the canned failure.
abbrev pub expected : List MockRequest → List MockResponse → List (Result Response)
expected [] rs = []
expected (q ∷ qs) [] = ok no_mock_response ∷ expected qs []
expected (q ∷ qs) (r ∷ rs) = canned r ∷ expected qs rs

-- The responses that are left.
abbrev pub drop {ℓ} : {A : Type ℓ} → List A → ℕ → List A
drop [] i = []
drop (x ∷ xs) zero = x ∷ xs
drop (x ∷ xs) (suc i) = drop xs i

none_left {ℓ} : {A : Type ℓ} (l : List A) (i : ℕ) → drop l i ≡ [] → get_elem? l i ≡ none
none_left [] i h = refl
none_left (x ∷ xs) zero h = cc
none_left (x ∷ xs) (suc i) h = none_left xs i h

drop_zero {ℓ} : {A : Type ℓ} (l : List A) → drop l 0 ≡ l
drop_zero [] = refl
drop_zero (x ∷ xs) = refl

one_left {ℓ} :
    {A : Type ℓ} (l : List A) (i : ℕ) (r : A) (rs : List A)
    → drop l i ≡ r ∷ rs
    → (get_elem? l i ≡ some r) × (drop l (suc i) ≡ rs)
one_left [] i r rs h = cc
one_left (x ∷ xs) zero r rs h = (cc, drop_zero xs ∙ cc)
one_left (x ∷ xs) (suc i) r rs h = one_left xs i r rs h

left_of : MockClient → List MockResponse
left_of m = drop m.responses m.call_index

-- One request, with no response left and with one.
serve-none :
    (q : MockRequest) (m : MockClient)
    → left_of m ≡ []
    → next_response q m ≡ (ok no_mock_response, record m { requests = m.requests ++ (q ∷ []) })
unfolding next_response answer left_of
serve-none q m h = rw (none_left m.responses m.call_index h) refl

serve-one :
    (q : MockRequest) (m : MockClient) (r : MockResponse) (rs : List MockResponse)
    → left_of m ≡ r ∷ rs
    → next_response q m
      ≡ (canned r, record m { requests = m.requests ++ (q ∷ []); call_index = m.call_index + 1 })
unfolding next_response answer left_of
serve-one q m r rs h = rw ((one_left m.responses m.call_index r rs h).0) refl

serve-cons :
    (q : MockRequest) (qs : List MockRequest) (m n : MockClient) (r : Result Response)
    (answers : List (Result Response))
    → next_response q m ≡ (r, n)
    → n.requests ≡ m.requests ++ (q ∷ [])
    → ((serve qs n).0 ≡ answers) × ((serve qs n).1.requests ≡ n.requests ++ qs)
    → ((serve (q ∷ qs) m).0 ≡ r ∷ answers)
      × ((serve (q ∷ qs) m).1.requests ≡ m.requests ++ (q ∷ qs))
unfolding serve
serve-cons q qs m n r answers e asked (h, k) = (
  ap (λ a. a.0 ∷ (serve qs a.1).0) e ∙ ap (λ l. r ∷ l) h,
  ap (λ a. (serve qs a.1).1.requests) e
      ∙ k
      ∙ ap (λ l. l ++ qs) asked
      ∙ append_assoc m.requests (q ∷ []) qs,
)

served :
    (qs : List MockRequest) (rs : List MockResponse) (m : MockClient)
    → left_of m ≡ rs
    → ((serve qs m).0 ≡ expected qs rs) × ((serve qs m).1.requests ≡ m.requests ++ qs)
unfolding serve left_of
served [] rs m h = (refl, sym (append-nil m.requests))
served (q ∷ qs) [] m h = serve-cons q qs m _ _ _ (serve-none q m h) refl (served qs [] _ h)
served (q ∷ qs) (r ∷ rs) m h =
    serve-cons q qs m _ _ _ (serve-one q m r rs h) refl
      (served qs rs _ (ap (drop m.responses) next ∙ (one_left m.responses m.call_index r rs h).1))
  where
    next : m.call_index + 1 ≡ suc m.call_index
    next = omega arith

-- From any state of the mock client, a run of requests is answered with the responses that are
-- left, one each and in the order in which they were added, and after those with the canned
-- status of 500, and all the requests are recorded in their order.
pub serve-in_order :
    (qs : List MockRequest) (m : MockClient)
    → ((serve qs m).0 ≡ expected qs (drop m.responses m.call_index))
      × ((serve qs m).1.requests ≡ m.requests ++ qs)
unfolding left_of
serve-in_order qs m = served qs (drop m.responses m.call_index) m refl
