-- ===== src/Memory/Tests.antt =====
-- On app/memory: two sessions and a long-term record, to which the theorems are applied.
use ochestrate.Base.{◌+◌, ◌*◌, ◌≡◌, refl, some, List, [], ◌∷◌, length, text_beq, if◌then◌else◌, ltb}
use ochestrate.Text.{Text, codes, contains, starts_with}
use ochestrate.Memory.{LongStore, MemoryRecord, MemoryService, window, add, search_long}
use ochestrate.Memory.Window.{last, add_turns, turns_of, fresh, window-add_turns}
use ochestrate.Memory.Records.{search_long-add_expiry}

-- Nothing here has capital letters.
abbrev lower : Text → Text
lower t = t

abbrev turns : List (Text × Text)
turns =
    (codes "a", codes "one")
    ∷ (codes "b", codes "two")
    ∷ (codes "a", codes "three")
    ∷ (codes "a", codes "four")
    ∷ []

window-add_turns_example :
    window (codes "a") (add_turns turns (fresh 2)) ≡ last 2 (turns_of (codes "a") turns)
window-add_turns_example = window-add_turns 2 (codes "a") turns

abbrev service : MemoryService
service = record { short = fresh 2; long = record { default_ttl_days = 30; records = [] } }

abbrev note : MemoryRecord
note = record {
  tenant_id = codes "acme";
  user_id = codes "ann";
  content = codes "likes tea";
  tags = [];
  created_at = 5;
  expires_at = 100;
}

abbrev empty : LongStore
empty = record { default_ttl_days = 30; records = [] }

abbrev notes : LongStore
notes = record { default_ttl_days = 30; records = note ∷ [] }

search_long-add_expiry_example :
    length (
      search_long lower 90000
        (codes "acme")
        (codes "ann")
        (codes "tea")
        3
        (add 6 (codes "acme") (codes "ann") (codes "likes tea") [] (some 1) empty))
    ≡ (if ltb 90000 (6 + 1 * 86400) then 1 else 0)
unfolding text_beq contains starts_with
search_long-add_expiry_example =
    search_long-add_expiry lower 90000 (codes "acme") (codes "ann") 6 (codes "likes tea") [] 1
      (codes "tea") 2 empty refl refl
