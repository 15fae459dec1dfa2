-- ===== src/Memory/Sessions.antt =====
-- On app/memory: sessions do not read one another's turns: the key of a session determines its
-- parts where the identifiers of the user and of the session are free of colons, as the server's
-- UUIDs are.
use mathlib.Core.List.{append_assoc}
use ochestrate.Base.{◌≡◌, ◌≢◌, ◌∙◌, refl, sym, inl, inr, [], ◌∷◌, ◌++◌, ◌==◌, All, Bool-cases}
use ochestrate.Text.{Text, text_eq}
use ochestrate.Memory.{MemoryService, session_key, read_short, write_short}
use ochestrate.Memory.Window.{window-add_turn}

-- No colon in the text.
abbrev pub NoColon : Text → Type 0
NoColon t = All (λ c. c ≢ 58) t

colon_inside : (a s : Text) → ¬ NoColon (a ++ 58 ∷ s)
colon_inside [] s h = h.0 refl
colon_inside (c ∷ a) s h = colon_inside a s h.1

-- The last colon splits a text in one way.
split_last_colon :
    (a b s t : Text) → NoColon s → NoColon t → a ++ 58 ∷ s ≡ b ++ 58 ∷ t → (a ≡ b) × (s ≡ t)
split_last_colon [] [] s t hs ht e = (refl, cc)
split_last_colon [] (d ∷ b) s t hs ht e =
    let e' : s ≡ b ++ 58 ∷ t = cc in absurd (colon_inside b t (rw e' at hs))
split_last_colon (c ∷ a) [] s t hs ht e =
    let e' : a ++ 58 ∷ s ≡ t = cc in absurd (colon_inside a s (rw (← e') at ht))
split_last_colon (c ∷ a) (d ∷ b) s t hs ht e =
    let rest = split_last_colon a b s t hs ht (cc) in (cc (rest.0), rest.1)

-- For identifiers of users and of sessions without colons, two session keys agree only if tenant,
-- user and session do.
pub session_key-injective :
    (t u s t' u' s' : Text)
    → NoColon u
    → NoColon s
    → NoColon u'
    → NoColon s'
    → session_key t u s ≡ session_key t' u' s'
    → (t ≡ t') × (u ≡ u') × (s ≡ s')
unfolding session_key
session_key-injective t u s t' u' s' hu hs hu' hs' e =
    let outer =
      split_last_colon (t ++ 58 ∷ u) (t' ++ 58 ∷ u') s s' hs hs'
        (append_assoc t (58 ∷ u) (58 ∷ s) ∙ e ∙ sym (append_assoc t' (58 ∷ u') (58 ∷ s'))) in
    let inner = split_last_colon t t' u u' hu hu' outer.0 in (inner.0, inner.1, outer.1)

-- For identifiers of users and of sessions without colons, a turn that is written in one session
-- is not read in another, whatever the tenants are called.
pub read_short-write_short_ne :
    (t u s t' u' s' text : Text) (m : MemoryService)
    → NoColon u
    → NoColon s
    → NoColon u'
    → NoColon s'
    → ¬ ((t ≡ t') × (u ≡ u') × (s ≡ s'))
    → read_short t' u' s' (write_short t u s text m).1 ≡ read_short t' u' s' m
unfolding read_short write_short
read_short-write_short_ne t u s t' u' s' text m hu hs hu' hs' ne =
    elim (Bool-cases (session_key t u s == session_key t' u' s')) [
      | inl same ↦ absurd (
          ne (
            session_key-injective t u s t' u' s' hu hs hu' hs'
              ((text_eq.beq_iff (session_key t u s) (session_key t' u' s')).0 same)))
      | inr other ↦ window-add_turn _ _ text m.short ∙ rw other
    ]
