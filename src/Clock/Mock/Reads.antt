-- ===== src/Clock/Mock/Reads.antt =====
-- How often a mock ticker of internal/clock/mock.go can be read before a read blocks.
use scafctl_plugin_auth_gith.Prelude.{
  ℕ, zero, suc, ◌+◌, ◌-◌, ◌≤◌, ℤ, ltb, Option, none, some, List, [], ◌∷◌, ◌++◌, ◌≡◌, refl, sym, ap,
  ◌∙◌, true, false, arith, if◌then◌else◌,
}
use scafctl_plugin_auth_gith.Clock.Mock.{
  length, Channel, offer, MockTicker, receive, stop, fill, refill, over, buf_size, new_ticker,
  reset, send,
}

abbrev pub times : ℕ → ℤ → List ℤ
times zero now = []
times (suc n) now = now ∷ times n now

abbrev pub channel : List ℤ → ℕ → Channel
channel held capacity = record { held = held; capacity = capacity }

abbrev pub holding : List ℤ → ℕ → MockTicker
holding held capacity = record { ch = channel held capacity }

-- The states that a ticker made at some time gets into.
pub data Reached : MockTicker → Type 0 where
  made : (now interval : ℤ) {m : MockTicker} → new_ticker now interval ≡ some m → Reached m
  read : (t : ℤ) {m n : MockTicker} → Reached m → receive m ≡ some (t, n) → Reached n
  stopped : {m : MockTicker} → Reached m → Reached (stop m)
  restarted :
      (now interval : ℤ) {m n : MockTicker} → Reached m → reset now interval m ≡ some n → Reached n
  fired : (now : ℤ) {m : MockTicker} → Reached m → Reached (send now m)

-- Reads until the given number is taken, in order; nothing if one of them blocks.
abbrev and_more : ℤ → Option (List ℤ × MockTicker) → Option (List ℤ × MockTicker)
and_more t none = none
and_more t (some (ts, m)) = some (t ∷ ts, m)

abbrev pub reads : ℕ → MockTicker → Option (List ℤ × MockTicker)
reads zero m = some ([], m)
reads (suc n) m = elim (receive m) [ none ↦ none | some (t, next) ↦ and_more t (reads n next) ]

append_assoc : (xs : List ℤ) (t : ℤ) (ys : List ℤ) → (xs ++ (t ∷ [])) ++ ys ≡ xs ++ (t ∷ ys)
append_assoc [] t ys = refl
append_assoc (x ∷ xs) t ys = ap (λ l. x ∷ l) (append_assoc xs t ys)

pub append_nil : (xs : List ℤ) → xs ++ [] ≡ xs
append_nil [] = refl
append_nil (x ∷ xs) = ap (λ l. x ∷ l) (append_nil xs)

pub length-append : (xs ys : List ℤ) → length (xs ++ ys) ≡ length xs + length ys
length-append [] ys = omega arith
length-append (x ∷ xs) ys = let ih = length-append xs ys in omega arith

pub length-times : (n : ℕ) (now : ℤ) → length (times n now) ≡ n
length-times zero now = refl
length-times (suc n) now = ap (λ k. suc k) (length-times n now)

pub sent_once : (xs : List ℤ) (t : ℤ) → length (xs ++ (t ∷ [])) ≡ suc (length xs)
sent_once xs t = let e = length-append xs (t ∷ []) in omega arith

pub room : (a b : ℕ) → suc a ≤ b → ltb a b ≡ true
room a b h = ground arith

no_room : (a b : ℕ) → b ≤ a → ltb a b ≡ false
no_room a b h = ground arith

offer_room :
    (now : ℤ) (held : List ℤ) (capacity : ℕ)
    → suc (length held) ≤ capacity
    → offer now (channel held capacity) ≡ some (channel (held ++ (now ∷ [])) capacity)
unfolding offer
offer_room now held capacity h =
    ap (λ b. if b then some (channel (held ++ (now ∷ [])) capacity) else none)
      (room (length held) capacity h)

offer_full :
    (now : ℤ) (held : List ℤ) (capacity : ℕ)
    → capacity ≤ length held
    → offer now (channel held capacity) ≡ none
unfolding offer
offer_full now held capacity h =
    ap (λ b. if b then some (channel (held ++ (now ∷ [])) capacity) else none)
      (no_room (length held) capacity h)

fill_lem :
    (n : ℕ) (now : ℤ) (held : List ℤ) (capacity : ℕ)
    → length held + n ≤ capacity
    → fill n now (channel held capacity) ≡ some (channel (held ++ times n now) capacity)
unfolding fill
fill_lem zero now held capacity h = ap (λ l. some (channel l capacity)) (sym (append_nil held))
fill_lem (suc n) now held capacity h =
    rw (offer_room now held capacity (omega arith), fill)
      (fill_lem n now (held ++ (now ∷ [])) capacity (less (sent_once held now) h)
        ∙ ap (λ l. some (channel l capacity)) (append_assoc held now (times n now)))
  where
    less : {a b c : ℕ} → b ≡ suc a → a + suc n ≤ c → b + n ≤ c
    less e h = omega arith

refill_lem :
    (k fuel : ℕ) (now : ℤ) (held : List ℤ) (capacity : ℕ)
    → length held + k ≡ capacity
    → suc k ≤ fuel
    → refill fuel now (channel held capacity) ≡ some (channel (held ++ times k now) capacity)
unfolding refill
refill_lem k zero now held capacity e h = absurd (omega arith)
refill_lem zero (suc fuel) now held capacity e h =
    rw (offer_full now held capacity (omega arith), refill)
      (ap (λ l. some (channel l capacity)) (sym (append_nil held)))
refill_lem (suc k) (suc fuel) now held capacity e h =
    rw (offer_room now held capacity (omega arith), refill)
      (refill_lem k fuel now (held ++ (now ∷ [])) capacity (exact (sent_once held now) e)
          (omega arith)
        ∙ ap (λ l. some (channel l capacity)) (append_assoc held now (times k now)))
  where
    exact : {a b c : ℕ} → b ≡ suc a → a + suc k ≡ c → b + k ≡ c
    exact e h = omega arith

pub reset_lem :
    (now interval : ℤ) (held : List ℤ) (capacity : ℕ)
    → length held ≤ capacity
    → reset now interval (holding held capacity)
      ≡ some (holding (held ++ times (capacity - length held) now) capacity)
unfolding reset
reset_lem now interval held capacity h = ap over (
    refill_lem (capacity - length held) (suc capacity) now held capacity (omega arith)
      (omega arith))

pub reads_lem :
    (ts rest : List ℤ) (capacity : ℕ)
    → reads (length ts) (holding (ts ++ rest) capacity) ≡ some (ts, holding rest capacity)
unfolding receive
reads_lem [] rest capacity = refl
reads_lem (t ∷ ts) rest capacity = ap (and_more t) (reads_lem ts rest capacity)

pub made_at :
    (now interval : ℤ) → new_ticker now interval ≡ some (holding (times buf_size now) buf_size)
unfolding new_ticker
made_at now interval = ap over (fill_lem buf_size now [] buf_size (omega arith))
