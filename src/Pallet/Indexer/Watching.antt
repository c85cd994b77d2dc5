-- ===== src/Pallet/Indexer/Watching.antt =====
-- A history with an indexer that reads the events of each block.
use gas_leap.Base.{ℕ, ◌≤◌, ◌≡◌, refl, List, [], is_some, nat_eq, pair_eq}
use gas_leap.Base.StorageMap.{get}
use gas_leap.Types.{AuthorizationType, type_eq}
use gas_leap.Gateway.{LogLine}
use gas_leap.Frame.{Frame, CurrencyLaws}
use gas_leap.Pallet.{World}
use gas_leap.Pallet.History.{
  StorageLayer, Call, apply, apply-Change, genesis, Reach, start, next, called, next_block,
  elsewhere, SparesPools,
}
use gas_leap.Pallet.Audit.{Reach-HasSoundBooks}
use gas_leap.Pallet.Indexer.{
  Index, blank, replay, account_of, transaction_of, MirrorsPools, MirrorsLog, MirrorsRules,
}
use gas_leap.Pallet.Indexer.Mirroring.{Change-MirrorsPools, Change-MirrorsLog, Change-MirrorsRules}

module _ {Ledger Origin : Type 0} (frame : Frame Ledger Origin) (layer : StorageLayer Ledger) where
  -- A history with an indexer that reads the events of each block when the block has ended. Block 0
  -- has no calls.
  pub data Watched : World Ledger → Index → Type 0 where
    begun :
        (l : Ledger) (block : ℕ) (lines : List LogLine)
        → Watched (record { storage = genesis frame layer l block; lines = lines }) blank
    on :
        {w : World Ledger} {i : Index}
        → Watched w i
        → 1 ≤ w.block_number
        → (o : Origin) (c : Call) → Watched (apply frame layer o c w).1 i
    block_ended :
        {w : World Ledger} {i : Index}
        → Watched w i
        → (n : ℕ)
        → Watched
            (record w { storage = record w.storage { block_number = n; events = [] } })
            (replay w.events i)
    aside :
        {w : World Ledger} {i : Index}
        → Watched w i
        → (l : Ledger) → SparesPools frame layer w.ledger l
        → Watched (record w { storage = record w.storage { ledger = l } }) i

  pub Watched-Reach : {w : World Ledger} {i : Index} → Watched w i → Reach frame layer w
  Watched-Reach (begun l b lines) = start l b lines
  Watched-Reach (on h b o c) = next (Watched-Reach h) (called o c)
  Watched-Reach (block_ended h n) = next (Watched-Reach h) (next_block n)
  Watched-Reach (aside h l grows) = next (Watched-Reach h) (elsewhere l grows)

  Watched-Mirrors :
      (laws : CurrencyLaws frame) {w : World Ledger} {i : Index}
      → Watched w i
      → MirrorsPools (replay w.events i) w.storage
        × MirrorsLog (replay w.events i) w.storage
        × MirrorsRules (replay w.events i) w.storage
  unfolding get
  Watched-Mirrors laws (begun l b lines) = (λ p. refl, λ n. refl, λ p t. refl)
  Watched-Mirrors laws (on {w} {i} h b o c) =
      let (pools, log, rules) = Watched-Mirrors laws h in
      let change = apply-Change frame layer o c w in
      (
        Change-MirrorsPools frame laws i w.storage _ change b
            (Reach-HasSoundBooks frame laws layer (Watched-Reach h)).0 pools,
        Change-MirrorsLog frame i w.storage _ change b log,
        Change-MirrorsRules frame i w.storage _ change b rules,
      )
  Watched-Mirrors laws (block_ended h n) = Watched-Mirrors laws h
  Watched-Mirrors laws (aside h l grows) = Watched-Mirrors laws h

  -- The events tell the books of a chain without calls in block 0, whose events are dropped: an indexer that has read the events of all blocks before, and reads
  -- those of the present one, has exactly the pools that are stored, each with its owner, its balance
  -- and what it has spent; exactly the records of the log, each with its pool, its user, its chain and
  -- its cost; and for each pool exactly the types of authorization for which there is a rule.
  pub events_tell_books :
      (laws : CurrencyLaws frame) {w : World Ledger} {i : Index}
      → Watched w i
      → let index = replay w.events i in
        ((p : ℕ) → get p index.accounts ≡ account_of (get p w.pools))
        × ((n : ℕ) → get n index.transactions ≡ transaction_of (get n w.transaction_log))
        × ((p : ℕ) (t : AuthorizationType)
            → is_some (get (p, t) index.rules) ≡ is_some (get (p, t) w.pool_authorizations))
  events_tell_books laws h = Watched-Mirrors laws h
