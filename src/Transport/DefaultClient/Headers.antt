-- ===== src/Transport/DefaultClient/Headers.antt =====
-- Which header a request of the default client carries where the caller gives one of its own.
use scafctl_plugin_auth_gith.Prelude.{
  String, ◌==◌, eq_iff, Option, none, some, [], ◌∷◌, ◌≡◌, refl, subst, Bool, true, false, List, inl,
  inr, if◌then◌else◌, arith,
}
use scafctl_plugin_auth_gith.Effect.{Result, ok, wrapped}
use scafctl_plugin_auth_gith.World.{Form}
use scafctl_plugin_auth_gith.Reliable.{Among}
use scafctl_plugin_auth_gith.Transport.HeaderKeys.{canonical_key}
use scafctl_plugin_auth_gith.Transport.DefaultClient.{
  Request, put, find, header, set_header, set_headers, get_request, new_request,
}

-- The values that a list gives under a name, however it is spelt there.
abbrev pub values_of : String → Form → List String
values_of key [] = []
values_of key ((k, v) ∷ more) =
    if canonical_key k == canonical_key key then v ∷ values_of key more else values_of key more

-- The default where no value is given, or else one of those that are.
abbrev pub Carries : Option String → List String → Option String → Type 0
Carries default [] carried = carried ≡ default
Carries default (v ∷ values) carried =
    (value : String) × (carried ≡ some value) × Among value (v ∷ values)

find-put :
    (key k v : String) (headers : Form)
    → find key (put k v headers) ≡ (if k == key then some v else find key headers)
unfolding find put
find-put key k v [] = refl
find-put key k v ((j, w) ∷ headers) =
    ground (arith, eq_iff j k, eq_iff k key, eq_iff j key, find-put key k v headers)

header-set_header :
    (key k v : String) (headers : Form)
    → header key (set_header k v headers)
      ≡ (if canonical_key k == canonical_key key then some v else header key headers)
unfolding header set_header
header-set_header key k v headers = find-put (canonical_key key) (canonical_key k) v headers

-- A value that is given replaces the default for those after it.
replaced :
    (v : String) (default : Option String) (values : List String) (carried : Option String)
    → Carries (some v) values carried
    → Carries default (v ∷ values) carried
replaced v default [] carried h = (v, h, inl refl)
replaced v default (u ∷ values) carried (w, e, among) = (w, e, inr among)

given_one :
    (b : Bool) (v : String) (before after : Option String) (values : List String)
    (carried : Option String)
    → after ≡ (if b then some v else before)
    → Carries after values carried
    → Carries before (if b then v ∷ values else values) carried
given_one true v before after values carried e h =
    replaced v before values carried (subst (λ o. Carries o values carried) e h)
given_one false v before after values carried e h = subst (λ o. Carries o values carried) e h

set_headers-Carries :
    (key : String) (more headers : Form)
    → Carries (header key headers) (values_of key more) (header key (set_headers more headers))
unfolding set_headers
set_headers-Carries key [] headers = refl
set_headers-Carries key ((k, v) ∷ more) headers =
    given_one (canonical_key k == canonical_key key) v _ _ _ _ (header-set_header key k v headers)
      (set_headers-Carries key more (set_header k v headers))

module _ (check_request : String → String → Result (Unit {0})) (encode : Form → String) where
  -- If the URL is accepted, a GET request is built. Under each name, the caller's and the request's
  -- spelling of which may differ in case, it carries a value that the caller gives, whatever the
  -- order of the caller's headers is; where the caller gives none, it carries JSON under `Accept`
  -- and nothing under other names.
  pub get_request-headers :
      (url : String) (headers : Form) (key : String)
      → check_request "GET" url ≡ ok tt
      → (r : Request) × (get_request check_request encode url headers ≡ ok r)
        × Carries
            (if "Accept" == canonical_key key then some "application/json" else none)
            (values_of key headers)
            (header key r.headers)
  unfolding get_request new_request wrapped set_headers set_header put header find canonical_key
  get_request-headers url headers key accepted =
      rw accepted (_, refl, set_headers-Carries key headers (("Accept", "application/json") ∷ []))
