-- ===== src/Memory.antt =====
-- app/memory: the sliding window of each session, the long-term records with their expiry, and
-- the service in front of both. Times are seconds.
pub mod Window
pub mod Sessions
pub mod Records
mod Tests
use ochestrate.Base.{
  ℕ, ◌+◌, ◌-◌, ◌*◌, Bool, true, false, ◌&&◌, ◌||◌, Option, none, some, List, [], ◌∷◌, ◌++◌, map, Eq,
  ◌==◌, ltb, length, take, drop, keep,
}
use ochestrate.Text.{Text, codes, text_eq, is_empty, contains}
use ochestrate.Schemas.{MemoryType, MemoryUpdate}
use ochestrate.Dict.{Dict, lookup, insert}

-- `deque(maxlen=n).append(x)`: the oldest items fall out on the left.
unfoldable pub push_bounded {ℓ} : {A : Type ℓ} → ℕ → List A → A → List A
push_bounded n xs x = let ys = xs ++ x ∷ [] in drop (length ys - n) ys

-- `ShortTermMemoryStore`
pub record ShortStore : Type 0 where
  pub max_turns : ℕ
  pub sessions : Dict Text (List Text)

or_empty : Option (List Text) → List Text
or_empty none = []
or_empty (some turns) = turns

-- `ShortTermMemoryStore.window`
unfoldable pub window : Text → ShortStore → List Text
unfolding or_empty
window session_key s = or_empty (lookup session_key s.sessions)

-- `ShortTermMemoryStore.add_turn`: the `defaultdict` begins a session with an empty deque.
unfoldable pub add_turn : Text → Text → ShortStore → ShortStore
unfolding window
add_turn session_key text s = record s {
  sessions = insert session_key (push_bounded s.max_turns (window session_key s) text) s.sessions;
}

-- `MemoryRecord`
pub record MemoryRecord : Type 0 where
  pub tenant_id : Text
  pub user_id : Text
  pub content : Text
  pub tags : List Text
  pub created_at : ℕ
  pub expires_at : ℕ

-- `LongTermMemoryStore`
pub record LongStore : Type 0 where
  pub default_ttl_days : ℕ
  pub records : List MemoryRecord

ttl : Option ℕ → ℕ → ℕ
ttl none default_ttl_days = default_ttl_days
ttl (some days) default_ttl_days = days

-- the record that `add` builds at the time `now`
unfoldable pub new_record : ℕ → Text → Text → Text → List Text → ℕ → MemoryRecord
new_record now tenant_id user_id content tags expire_days = record {
  tenant_id = tenant_id;
  user_id = user_id;
  content = content;
  tags = tags;
  created_at = now;
  expires_at = now + expire_days * 86400;
}

-- `LongTermMemoryStore.add`
unfoldable pub add : ℕ → Text → Text → Text → List Text → Option ℕ → LongStore → LongStore
unfolding ttl
add now tenant_id user_id content tags ttl_days s = record s {
  records =
      s.records
      ++ new_record now tenant_id user_id content tags (ttl ttl_days s.default_ttl_days) ∷ [];
}

-- `MemoryService`
pub record MemoryService : Type 0 where
  pub short : ShortStore
  pub long : LongStore

-- `MemoryService._session_key`
unfoldable pub session_key : Text → Text → Text → Text
session_key tenant_id user_id session_id =
    tenant_id ++ (codes ":" ++ (user_id ++ (codes ":" ++ session_id)))

-- `MemoryService.write_short`
unfoldable pub write_short :
    Text → Text → Text → Text → MemoryService → MemoryUpdate × MemoryService
write_short tenant_id user_id session_id content s = (
  record { memory_type = MemoryType.short; content = content },
  record s { short = add_turn (session_key tenant_id user_id session_id) content s.short },
)

-- `MemoryService.read_short`
unfoldable pub read_short : Text → Text → Text → MemoryService → List Text
read_short tenant_id user_id session_id s =
    window (session_key tenant_id user_id session_id) s.short

-- `MemoryService.write_long`
unfoldable pub write_long :
    ℕ → Text → Text → Text → List Text → Option ℕ → MemoryService → MemoryUpdate × MemoryService
write_long now tenant_id user_id content tags ttl_days s = (
  record { memory_type = MemoryType.long; content = content },
  record s { long = add now tenant_id user_id content tags ttl_days s.long },
)

-- `str.lower` is a parameter: its table of characters is the interpreter's.
module _ (lower : Text → Text) where
  -- the condition of the comprehension in `search`
  unfoldable pub is_match : ℕ → Text → Text → Text → MemoryRecord → Bool
  is_match now tenant_id user_id normalized r =
      r.tenant_id == tenant_id
      && (r.user_id == user_id)
      && ltb now r.expires_at
      && (contains normalized (lower r.content) || is_empty normalized)

  -- `LongTermMemoryStore.search` at the time `now`
  unfoldable pub search_long : ℕ → Text → Text → Text → ℕ → LongStore → List MemoryRecord
  search_long now tenant_id user_id query limit s =
      take limit (keep (is_match now tenant_id user_id (lower query)) s.records)

  -- `MemoryService.read_long`
  unfoldable pub read_long : ℕ → Text → Text → Text → ℕ → MemoryService → List Text
  read_long now tenant_id user_id query limit s =
      map (λ r. r.content) (search_long now tenant_id user_id query limit s.long)
