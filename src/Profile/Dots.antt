-- ===== src/Profile/Dots.antt =====
-- Texts without a dot, and how a dotted text comes apart at its first dot.
use Prim.Native.Char.{code}
use Prim.Native.String.{String as Text}
use text.Mathlib.TextLemmas.{
  head-eq_of_cons-eq, tail-eq_of_cons-eq, append_cancel_left, cons-append, nil-append,
}
use mathlib.Core.Path.{ap₂}
use scafctl_plugin_auth_gith.Prelude.{
  String, ◌<>◌, ◌≡◌, ◌≢◌, ◌∙◌, refl, sym, ap, subst, false, arith,
}
use scafctl_plugin_auth_gith.Prelude.Text.{contains_any}

-- No character is a dot.
abbrev pub NoDot : String → Type 0
NoDot Text.[] = Unit
NoDot (Text.◌∷◌ c s) = (code c ≢ 46) × NoDot s

pub NoDot-of_valid : (s : String) → contains_any s "./\\:" ≡ false → NoDot s
NoDot-of_valid Text.[] h = tt
NoDot-of_valid (Text.◌∷◌ c s) h = (ground arith, NoDot-of_valid s (ground arith))

dot_cons : (a : String) → "." <> a ≡ Text.◌∷◌ "." a
dot_cons a = cons-append "." "" a ∙ ap (λ t. Text.◌∷◌ "." t) (nil-append a)

NoDot-append_right : (p x : String) → NoDot (p <> x) → NoDot x
NoDot-append_right Text.[] x h = subst NoDot (nil-append x) h
NoDot-append_right (Text.◌∷◌ c p) x h = NoDot-append_right p x (subst NoDot (cons-append c p x) h).1

pub not-NoDot-dotted : (p a : String) → NoDot (p <> ("." <> a)) → ⊥
not-NoDot-dotted p a h = (subst NoDot (dot_cons a) (NoDot-append_right p ("." <> a) h)).0 refl

-- What precedes the first dot is the same, and what follows it.
pub dot_split :
    (p q a b : String) → NoDot p → NoDot q → p <> ("." <> a) ≡ q <> ("." <> b) → (p ≡ q) × (a ≡ b)
dot_split Text.[] Text.[] a b hp hq e =
    (refl, append_cancel_left "." a b (append_cancel_left "" _ _ e))
dot_split Text.[] (Text.◌∷◌ d q) a b hp hq e = absurd (
    hq.0 (
      ap code
        (sym (head-eq_of_cons-eq (sym (dot_cons a) ∙ sym (nil-append _) ∙ e ∙ cons-append d q _)))))
dot_split (Text.◌∷◌ c p) Text.[] a b hp hq e =
    absurd (
      hp.0 (ap code (head-eq_of_cons-eq (sym (cons-append c p _) ∙ e ∙ nil-append _ ∙ dot_cons b))))
dot_split (Text.◌∷◌ c p) (Text.◌∷◌ d q) a b hp hq e =
    let e' = sym (cons-append c p ("." <> a)) ∙ e ∙ cons-append d q ("." <> b) in
    let ih = dot_split p q a b hp.1 hq.1 (tail-eq_of_cons-eq e') in
    (ap₂ (λ x y. Text.◌∷◌ x y) (head-eq_of_cons-eq e') ih.0, ih.1)
