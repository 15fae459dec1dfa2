-- ===== src/Memory/Window.antt =====
-- On app/memory: the bounded window refines the whole history of a session: it is the last turns
-- of it.
use Prim.Native.Nat.add
use native.Mathlib.Nat.{zero-add}
use mathlib.Core.List.{append-nil}
use ochestrate.Base.{
  ℕ, zero, suc, ◌+◌, ◌-◌, ◌≤◌, ◌≡◌, ◌∙◌, refl, ap, ap₂, sym, inl, inr, true, false, List, [], ◌∷◌,
  ◌++◌, arith, ◌==◌, if◌then◌else◌, length, drop, Bool-cases, length-append, length-drop,
}
use ochestrate.Text.{Text, text_eq}
use ochestrate.Dict.{lookup, lookup-insert}
use ochestrate.Memory.{ShortStore, push_bounded, window, add_turn}

-- `history[-n:]`
abbrev pub last {ℓ} : {A : Type ℓ} → ℕ → List A → List A
last n xs = drop (length xs - n) xs

module _ {ℓ} {A : Type ℓ} where
  drop-append : (k : ℕ) (xs ys : List A) → k ≤ length xs → drop k (xs ++ ys) ≡ drop k xs ++ ys
  drop-append zero xs ys h = refl
  drop-append (suc k) [] ys h = absurd (omega arith)
  drop-append (suc k) (x ∷ xs) ys h = drop-append k xs ys (omega arith)

  drop-nil : (k : ℕ) → drop {A = A} k [] ≡ []
  drop-nil zero = refl
  drop-nil (suc k) = refl

  drop-drop : (j k : ℕ) (xs : List A) → drop j (drop k xs) ≡ drop (k + j) xs
  drop-drop j zero xs = rw zero-add
  drop-drop j (suc k) [] = drop-nil j ∙ sym (drop-nil (suc k + j))
  drop-drop j (suc k) (x ∷ xs) = rw add.suc (drop-drop j k xs)

  -- One more item pushed on a window of the history gives the window of the longer history.
  pub push_bounded-last :
      (n : ℕ) (xs : List A) (x : A) → push_bounded n (last n xs) x ≡ last n (xs ++ x ∷ [])
  unfolding push_bounded
  push_bounded-last n xs x =
      rw (← drop-append (length xs - n) xs (x ∷ []) (omega arith), drop-drop)
        (ap (λ k. drop k (xs ++ x ∷ []))
          (omega
            (arith, length-append {ℓ} xs (x ∷ []), length-drop {ℓ} (length xs - n) (xs ++ x ∷ []))))

append_cons {ℓ} :
    {A : Type ℓ} (xs : List A) (x : A) (ys : List A) → xs ++ x ∷ ys ≡ (xs ++ x ∷ []) ++ ys
append_cons [] x ys = refl
append_cons (z ∷ xs) x ys = ap (λ zs. z ∷ zs) (append_cons xs x ys)

-- What was said in one session.
abbrev pub turns_of : Text → List (Text × Text) → List Text
turns_of k [] = []
turns_of k ((j, text) ∷ turns) = elim (j == k) [
  | true ↦ text ∷ turns_of k turns
  | false ↦ turns_of k turns
]

-- `add_turn` for each turn in order.
pub add_turns : List (Text × Text) → ShortStore → ShortStore
add_turns [] s = s
add_turns ((k, text) ∷ turns) s = add_turns turns (add_turn k text s)

pub window-add_turn :
    (k j : Text) (text : Text) (s : ShortStore)
    → window j (add_turn k text s)
      ≡ (if k == j then push_bounded s.max_turns (window j s) text else window j s)
unfolding add_turn
window-add_turn k j text s = rw lookup-insert (ground (arith, text_eq.beq_iff k j))

max_turns-add_turn : (k text : Text) (s : ShortStore) → (add_turn k text s).max_turns ≡ s.max_turns
unfolding add_turn
max_turns-add_turn k text s = refl

window-add_turns_from :
    (n : ℕ) (k : Text) (turns : List (Text × Text)) (history : List Text) (s : ShortStore)
    → s.max_turns ≡ n
    → window k s ≡ last n history
    → window k (add_turns turns s) ≡ last n (history ++ turns_of k turns)
unfolding add_turns
window-add_turns_from n k [] history s m h = rw append-nil h
window-add_turns_from n k ((j, text) ∷ turns) history s m h = elim (Bool-cases (j == k)) [
  | inl mine ↦
      rw (mine, turns_of, append_cons history text (turns_of k turns))
        (window-add_turns_from n k turns (history ++ text ∷ []) (add_turn j text s)
          (max_turns-add_turn j text s ∙ m)
          (window-add_turn j k text s
            ∙ rw mine (ap₂ (λ c w. push_bounded c w text) m h ∙ push_bounded-last n history text)))
  | inr other ↦
      rw (other, turns_of)
        (window-add_turns_from n k turns history (add_turn j text s)
          (max_turns-add_turn j text s ∙ m) (rw (window-add_turn, other) h))
]

abbrev pub fresh : ℕ → ShortStore
fresh max_turns = record { max_turns = max_turns; sessions = [] }

-- After any turns in any sessions the window of a session is the last turns of that session, as
-- many as the store keeps.
pub window-add_turns :
    (n : ℕ) (k : Text) (turns : List (Text × Text))
    → window k (add_turns turns (fresh n)) ≡ last n (turns_of k turns)
unfolding window lookup
window-add_turns n k turns =
    window-add_turns_from n k turns [] (fresh n) refl (sym (drop-nil (0 - n)))
