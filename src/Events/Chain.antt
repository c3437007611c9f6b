-- ===== src/Events/Chain.antt =====
-- The hash chain of ledger/events.py, over the events of a ledger, the newest first.
pub mod Anchor
use lean_evolve.Prelude.{ℕ, suc, String, ◌≡◌, some, List, [], ◌∷◌}
use lean_evolve.Value.{Host}
use lean_evolve.Events.{Event, genesis_hash, compute_hash}

abbrev pub head_id : List Event → ℕ
head_id [] = 0
head_id (e ∷ es) = e.id

abbrev pub head_hash : List Event → String
head_hash [] = genesis_hash
head_hash (e ∷ es) = e.event_hash

module _ (host : Host) where
  -- `e` continues the history `es`.
  pub record IsLink (e : Event) (es : List Event) : Type 0 where
    pub numbered : e.id ≡ suc (head_id es)
    pub linked : e.previous_event_hash ≡ head_hash es
    pub sealed : compute_hash host e ≡ some e.event_hash

  abbrev pub IsChain : List Event → Type 0
  IsChain [] = Unit
  IsChain (e ∷ es) = IsLink e es × IsChain es
