-- ===== src/Orchestration/StateGraph.antt =====
-- The state graph that app/orchestration/service.py builds. LangGraph itself is a parameter: of a
-- compiled graph its documentation says that it starts at the entry point, runs the node it is at,
-- and follows the node's edge until the edge leads to the end, within 25 rounds.
use ochestrate.Base.{ℕ, zero, suc, ◌≡◌, true, false, Option, none, some, ◌==◌, if◌then◌else◌}
use ochestrate.Text.{Text, text_eq}
use ochestrate.Dict.{Dict, lookup}

-- the calls of `add_node`, `add_edge` and `set_entry_point`
pub record Graph {ℓ} (S : Type ℓ) : Type ℓ where
  pub nodes : Dict Text (S → S)
  pub edges : Dict Text Text
  pub entry : Text

module _ {ℓ} {S : Type ℓ} (end_symbol : Text) (g : Graph S) where
  -- one round at a node: nothing where the node or its edge is missing
  unfoldable pub advance : Text → S → Option (S × Text)
  advance name s = elim (lookup name g.nodes) [
    | none ↦ none
    | some node ↦ elim (lookup name g.edges) [ none ↦ none | some target ↦ some (node s, target) ]
  ]

  -- the walk from a node to the end, within a number of rounds
  unfoldable pub walk : ℕ → Text → S → Option S
  unfolding advance
  walk zero name s = if name == end_symbol then some s else none
  walk (suc n) name s = elim (name == end_symbol) [
    | true ↦ some s
    | false ↦ elim (advance name s) [ none ↦ none | some (s', target) ↦ walk n target s' ]
  ]

-- LangGraph: the symbol of the end, and what invoking a compiled graph does to a state
pub record LangGraph {ℓ} (S : Type ℓ) : Type ℓ where
  pub end_symbol : Text
  pub invoke : Graph S → S → S

-- A graph that reaches its end is run along its edges.
abbrev pub Follows {ℓ} : {S : Type ℓ} → LangGraph S → Type ℓ
Follows {S} l =
    (g : Graph S) (s s' : S) → walk l.end_symbol g 25 g.entry s ≡ some s' → l.invoke g s ≡ s'
