-- ===== src/Invariant/Api.antt =====
-- The public methods of src/coordinator.rs besides the tick keep the state well formed.
use rust_bitvmx_bitcoin.Common.{
  Bool, Bool-cases, IsUnique, List, Option, Option-cases, String, [], arith, contains, false, inl,
  inr, none, not, refl, some, sym, true, ℕ, ◌==◌, ◌∙◌, ◌∷◌, ◌≡◌, nat_eq, string_eq,
}
use rust_bitvmx_bitcoin.Types.{
  BlockHeight, CoordinatedTx, CoordinatorNews, FeeInfo, SpeedupData, Transaction, TxKind, Txid,
  Utxo, invalid_cancel, needs_speedup, normal, state_eq, outpoint_eq, news_eq,
}
use rust_bitvmx_bitcoin.Storage.Db.{Db, exists, insert_tx, update_tx}
use rust_bitvmx_bitcoin.Storage.News.{ack_news, push_news}
use rust_bitvmx_bitcoin.Storage.Pending.{
  add_pending_speedup_parent, cpfp_parents, is_needs_speedup, remove_pending_speedup_parent,
}
use rust_bitvmx_bitcoin.Storage.Records.{remove_tx}
use rust_bitvmx_bitcoin.Storage.WellFormed.{IsWellFormed}
use rust_bitvmx_bitcoin.Storage.WellFormed.Operations.{
  Frame, IsSafe, Within, ack_news-Within, push_news-Within, remove_tx-Within, update_tx-Within,
}
use rust_bitvmx_bitcoin.Storage.WellFormed.Funds.{
  add_pending-Within, remove_pending-Within, set_funding-Within,
}
use rust_bitvmx_bitcoin.Helper.{context}
use rust_bitvmx_bitcoin.Outside.{TypesToMonitor, other, transactions}
use rust_bitvmx_bitcoin.World.{modify, pure, updates, when}
use rust_bitvmx_bitcoin.World.Keeps.{
  Keeps, Keeps-bind, Keeps-modify, Keeps-pure, Keeps-updates, Keeps-when, keeps_rules,
}
use rust_bitvmx_bitcoin.Funding.{set_funding}
use rust_bitvmx_bitcoin.Engine.Common.{EngineContext, get_height, network_fee_rate}
use rust_bitvmx_bitcoin.Invariant.Snapshot.{Anything, Keeps-anyhow, Keeps-step, Kept, Listed}
use rust_bitvmx_bitcoin.Coordinator.{
  AckNews, add_funding, cancel_eligible, cancel_transactions, classify_cancel_request,
  coordinator_ack, coordinator_ack_news, coordinator_cancel, coordinator_dispatch,
  dispatch_with_speedup, dispatch_without_speedup, monitor_ack, register_new, register_tx,
  registered, split_cancel, store_registered,
}

-- The acknowledgement of an item of the coordinator's.
abbrev pub is_ack_of : CoordinatorNews → AckNews → Bool
is_ack_of m (monitor_ack n) = false
is_ack_of m (coordinator_ack n) = n == m

module _ (L : Frame) where
  split_cancel-Within : (ids : List Txid) (db : Db) → Within L db → Within L (split_cancel ids db).1
  unfolding split_cancel
  split_cancel-Within [] db kept = kept
  split_cancel-Within (id ∷ ids) db kept = elim (Option-cases (classify_cancel_request id db)) [
    | inl e ↦ rw (e, split_cancel) (split_cancel-Within ids db kept)
    | inr (reason, e) ↦
        rw (e, split_cancel)
          (split_cancel-Within ids (push_news (invalid_cancel id reason) db)
            (push_news-Within L (invalid_cancel id reason) db kept))
  ]

  unlisted_all-Keeps : (id : Txid) → Keeps (Within L) (modify (remove_pending_speedup_parent id))
  unlisted_all-Keeps id =
      Keeps-modify (remove_pending_speedup_parent id) (remove_pending-Within L id)

  removed_all-Keeps : (id : Txid) → Keeps (Within L) (modify (remove_tx id))
  removed_all-Keeps id = Keeps-modify (remove_tx id) (remove_tx-Within L id)

  split-Keeps : (ids : List Txid) → Keeps (Within L) (updates (split_cancel ids))
  split-Keeps ids = Keeps-updates (split_cancel ids) (split_cancel-Within ids)

module _ (ctx : EngineContext) (L : Frame) where
  open ctx use {outside as o, settings}

  cancel_eligible-Keeps :
      (ids : List Txid) (context : String) (trigger : Option ℕ)
      → Keeps (Within L) (cancel_eligible ctx ids context trigger)
  cancel_eligible-Keeps ids context trigger =
      search (keeps_rules, unlisted_all-Keeps L, removed_all-Keeps L) depth 14

  cancel_all-Keeps : (what : TypesToMonitor) → Keeps (Within L) (coordinator_cancel ctx what)
  unfolding coordinator_cancel cancel_transactions
  cancel_all-Keeps (transactions ids context trigger) =
      search (keeps_rules, split-Keeps L, cancel_eligible-Keeps) depth 12
  cancel_all-Keeps (other n) = search keeps_rules

  add_funding_to-Keeps : (utxo : Utxo) → Keeps (Within L) (add_funding ctx utxo)
  unfolding add_funding
  add_funding_to-Keeps utxo =
      Keeps-bind (updates (set_funding settings.funding utxo)) _
        (Keeps-updates (set_funding settings.funding utxo)
          (set_funding-Within L settings.funding utxo))
        by_news
    where
      by_news :
          (n : Option CoordinatorNews)
          → Keeps (Within L) (elim n [ none ↦ pure tt | some m ↦ modify (push_news m) ])
      by_news none = search keeps_rules
      by_news (some n) = Keeps-modify (push_news n) (push_news-Within L n)

  acked-Keeps :
      (a : AckNews)
      → ((m : CoordinatorNews) → L.promised m → is_ack_of m a ≡ false)
      → Keeps (Within L) (coordinator_ack_news ctx a)
  unfolding coordinator_ack_news
  acked-Keeps (monitor_ack n) others = search keeps_rules
  acked-Keeps (coordinator_ack n) others =
      Keeps-bind (get_height ctx) (λ h. modify (ack_news n h)) (search keeps_rules)
        (λ h. Keeps-modify (ack_news n h) (λ db. ack_news-Within L n h db others))

  network_fee_rate-Keeps : Keeps (Within L) (network_fee_rate ctx)
  unfolding network_fee_rate
  network_fee_rate-Keeps = search keeps_rules

  -- A record of a txid that is not listed, with no parents, is stored.
  store_registered-Keeps :
      (tx : CoordinatedTx) → IsSafe L tx → Keeps (Within L) (store_registered ctx tx)
  unfolding insert_tx update_tx
  store_registered-Keeps tx safe =
      Keeps-bind (modify (insert_tx tx)) _
        (Keeps-modify (insert_tx tx) (λ db. update_tx-Within L tx db safe))
        (λ _.
          Keeps-when (is_needs_speedup tx) _
            (Keeps-modify (add_pending_speedup_parent tx.txid) (add_pending-Within L tx.txid)))

  register_new-Keeps :
      (tx : Transaction) (kind : TxKind) (context : String) (target : Option BlockHeight)
      (trigger stuck : Option ℕ)
      → ((h : BlockHeight) (f : FeeInfo)
          → IsSafe L (registered ctx tx kind context h trigger stuck f))
      → Keeps (Within L) (register_new ctx tx kind context target trigger stuck)
  unfolding register_new
  register_new-Keeps tx kind context target trigger stuck safe =
      search (keeps_rules, network_fee_rate-Keeps, store_registered-Keeps, safe) depth 14

module _ (ctx : EngineContext) (N : CoordinatorNews → Type 0) where
  open ctx use {outside as o, settings}

  -- A txid with no record is not listed.
  unknown-absent :
      (id : Txid) (db : Db)
      → exists id db ≡ false
      → IsWellFormed db
      → contains db.speedup_list id ≡ true
      → ⊥
  unknown-absent id db unknown wf c =
      let (t, at, kind) = wf.listed_stored id c in true_false (sym (rw at refl) ∙ unknown)
    where
      true_false : true ≡ false → ⊥
      true_false e = ground arith

  register_tx-Keeps :
      (tx : Transaction) (kind : TxKind) (context : String) (target : Option BlockHeight)
      (trigger stuck : Option ℕ)
      → ((h : BlockHeight) (f : FeeInfo)
          → IsUnique (cpfp_parents (registered ctx tx kind context h trigger stuck f)))
      → Keeps (Kept N) (register_tx ctx tx kind context target trigger stuck)
  unfolding register_tx
  register_tx-Keeps tx kind context target trigger stuck once =
      Keeps-step (exists (o.bitcoin.compute_txid tx))
        (λ known. when (not known) (register_new ctx tx kind context target trigger stuck))
        (λ db wf. elim (Bool-cases (exists (o.bitcoin.compute_txid tx) db)) [
          | inl known ↦ rw known (Keeps-pure tt)
          | inr unknown ↦ rw unknown (
              register_new-Keeps ctx (Listed N db) tx kind context target trigger stuck (λ h f. (
                once h f,
                λ c. absurd (unknown-absent (o.bitcoin.compute_txid tx) db unknown wf c),
              )))
        ])

  pub dispatch_with_speedup-Keeps :
      (tx : Transaction) (d : SpeedupData) (context : String) (target : Option BlockHeight)
      (trigger : Option ℕ)
      → Keeps (Kept N) (dispatch_with_speedup ctx tx d context target trigger)
  unfolding dispatch_with_speedup
  dispatch_with_speedup-Keeps tx d context target trigger =
      register_tx-Keeps tx (needs_speedup d) context target trigger none (λ h f. tt)

  pub dispatch_without_speedup-Keeps :
      (tx : Transaction) (context : String) (target : Option BlockHeight) (trigger stuck : Option ℕ)
      → Keeps (Kept N) (dispatch_without_speedup ctx tx context target trigger stuck)
  unfolding dispatch_without_speedup
  dispatch_without_speedup-Keeps tx context target trigger stuck =
      register_tx-Keeps tx normal context target trigger stuck (λ h f. tt)

  pub coordinator_dispatch-Keeps :
      (tx : Transaction) (d : Option SpeedupData) (context : String) (target : Option BlockHeight)
      (trigger : Option ℕ)
      → Keeps (Kept N) (coordinator_dispatch ctx tx d context target trigger)
  unfolding coordinator_dispatch
  coordinator_dispatch-Keeps tx (some d) context target trigger =
      dispatch_with_speedup-Keeps tx d context target trigger
  coordinator_dispatch-Keeps tx none context target trigger =
      dispatch_without_speedup-Keeps tx context target trigger none

  pub coordinator_cancel-Keeps :
      (what : TypesToMonitor) → Keeps (Kept N) (coordinator_cancel ctx what)
  coordinator_cancel-Keeps what =
      Keeps-anyhow (coordinator_cancel ctx what) (cancel_all-Keeps ctx (Anything N) what)

  pub add_funding-Keeps : (utxo : Utxo) → Keeps (Kept N) (add_funding ctx utxo)
  add_funding-Keeps utxo =
      Keeps-anyhow (add_funding ctx utxo) (add_funding_to-Keeps ctx (Anything N) utxo)

  pub coordinator_ack_news-Keeps :
      (a : AckNews)
      → ((m : CoordinatorNews) → N m → is_ack_of m a ≡ false)
      → Keeps (Kept N) (coordinator_ack_news ctx a)
  coordinator_ack_news-Keeps a others =
      Keeps-anyhow (coordinator_ack_news ctx a) (acked-Keeps ctx (Anything N) a others)
