-- ===== src/Coordinator/Register.antt =====
-- `register_tx` of src/coordinator.rs: what a registration stores, and registering twice.
use rust_bitvmx_bitcoin.Common.{
  ==_refl, Bool-cases, List, Option, String, [], contains, contains-append, false, inl, inr,
  push_new, ap, refl, some, subst, sym, unwrap_or, ◌∙◌, true, ℕ, ◌∷◌, ◌≡◌, nat_eq, string_eq,
}
use rust_bitvmx_bitcoin.Common.Maps.{lookup-insert_self}
use rust_bitvmx_bitcoin.Types.{
  BlockHeight, CoordinatedTx, Result, Transaction, TxKind, ok, Txid, to_dispatch, state_eq,
  outpoint_eq, news_eq,
}
use rust_bitvmx_bitcoin.Storage.Db.{Db, exists, get_tx_by_id, insert_tx}
use rust_bitvmx_bitcoin.Fee.{compute_fee_for_tx}
use rust_bitvmx_bitcoin.Storage.Pending.{add_pending_speedup_parent, is_needs_speedup}
use rust_bitvmx_bitcoin.World.{M, World, ◌>>=◌}
use rust_bitvmx_bitcoin.Outside.{transactions}
use rust_bitvmx_bitcoin.World.Rules.{bind_ends}
use rust_bitvmx_bitcoin.Engine.Common.{EngineContext, get_height, monitor_call, network_fee_rate}
use rust_bitvmx_bitcoin.Coordinator.{register_new, register_tx, registered, store_registered}

-- A registered transaction waits for dispatch under its txid with nothing attempted yet.
abbrev pub IsFresh : Transaction → TxKind → CoordinatedTx → Type 0
IsFresh tx kind t = (t.tx ≡ tx) × (t.kind ≡ kind) × (t.state ≡ to_dispatch) × (t.retry_count ≡ 0)

module _ (ctx : EngineContext) where
  open ctx use {outside as o}

  abbrev id_of : Transaction → Txid
  id_of tx = o.bitcoin.compute_txid tx

  abbrev pub Registered : Transaction → TxKind → Db → Type 0
  Registered tx kind db =
      (t : CoordinatedTx) × (get_tx_by_id (id_of tx) db ≡ some t)
      × IsFresh tx kind t
      × (is_needs_speedup t ≡ true → contains db.pending_speedup_parents (id_of tx) ≡ true)

  listed : (xs : List Txid) (a : Txid) → contains (push_new xs a) a ≡ true
  listed xs a = elim (Bool-cases (contains xs a)) [
    | inl old ↦ rw old old
    | inr new ↦ rw (new, contains-append xs (a ∷ []) a, new, ==_refl a) refl
  ]

  stored :
      (t : CoordinatedTx) (w : World)
      → (get_tx_by_id t.txid ((store_registered ctx t w).1).db ≡ some t)
        × (is_needs_speedup t ≡ true
            → contains ((store_registered ctx t w).1).db.pending_speedup_parents t.txid ≡ true)
  unfolding insert_tx add_pending_speedup_parent
  stored t w = elim (Bool-cases (is_needs_speedup t)) [
    | inl needs ↦
        rw needs
          (lookup-insert_self t.txid t w.db.txs, λ same. listed w.db.pending_speedup_parents t.txid)
    | inr plain ↦ rw plain (lookup-insert_self t.txid t w.db.txs, λ e. cc)
  ]

  new-Registered :
      (tx : Transaction) (kind : TxKind) (context : String) (target : Option BlockHeight)
      (trigger stuck : Option ℕ) (w : World)
      → (register_new ctx tx kind context target trigger stuck w).0 ≡ ok tt
      → Registered tx kind (register_new ctx tx kind context target trigger stuck w).1.db
  unfolding register_new
  new-Registered tx kind context target trigger stuck w e =
      let watch = monitor_call ctx (transactions (id_of tx ∷ []) context trigger) false in
      let t : BlockHeight → ℕ → CoordinatedTx = λ h rate.
        registered ctx tx kind context (unwrap_or target h) trigger stuck
          (compute_fee_for_tx o.bitcoin tx rate) in
      let keep : BlockHeight → ℕ → M (Unit {0}) =
        λ h rate. watch >>= (λ u. store_registered ctx (t h rate)) in
      let Q : World → Type 0 = λ w'. Registered tx kind w'.db in
      bind_ends Q (get_height ctx) (λ h. network_fee_rate ctx >>= (λ r. keep h r.0)) w tt e
        (λ h eh e1.
          bind_ends Q (network_fee_rate ctx) (λ r. keep h r.0) _ tt e1
            (λ r er e2.
              bind_ends Q watch (λ u. store_registered ctx (t h r.0)) _ tt e2
                (λ u eu e3.
                  let s =
                    stored (t h r.0) (watch (network_fee_rate ctx (get_height ctx w).1).1).1 in
                  (t h r.0, s.0, (refl, refl, refl, refl), s.1))))

  register_unknown :
      (tx : Transaction) (kind : TxKind) (context : String) (target : Option BlockHeight)
      (trigger stuck : Option ℕ) (w : World)
      → exists (id_of tx) w.db ≡ false
      → register_tx ctx tx kind context target trigger stuck w
        ≡ register_new ctx tx kind context target trigger stuck w
  unfolding register_tx
  register_unknown tx kind context target trigger stuck w unknown = rw unknown refl

  register_known :
      (tx : Transaction) (kind : TxKind) (context : String) (target : Option BlockHeight)
      (trigger stuck : Option ℕ) (w : World)
      → exists (id_of tx) w.db ≡ true
      → register_tx ctx tx kind context target trigger stuck w ≡ (ok tt, w)
  unfolding register_tx
  register_known tx kind context target trigger stuck w known = rw known refl

  -- A registration of an unknown transaction that returns normally has stored it under its txid,
  -- waiting for dispatch with no attempt counted, and has listed it as a pending parent when it
  -- needs a speedup. From then on the transaction is left as it is: registering it once more, of
  -- whatever kind and with whatever parameters, returns normally and changes nothing.
  pub registration_sticks :
      (tx : Transaction) (kind : TxKind) (context : String) (target : Option BlockHeight)
      (trigger stuck : Option ℕ) (w : World)
      → exists (id_of tx) w.db ≡ false
      → (register_tx ctx tx kind context target trigger stuck w).0 ≡ ok tt
      → let w' = (register_tx ctx tx kind context target trigger stuck w).1 in
        Registered tx kind w'.db
        × ((kind' : TxKind) (context' : String) (target' : Option BlockHeight)
              (trigger' stuck' : Option ℕ)
            → register_tx ctx tx kind' context' target' trigger' stuck' w' ≡ (ok tt, w'))
  registration_sticks tx kind context target trigger stuck w unknown e =
      let w' = (register_tx ctx tx kind context target trigger stuck w).1 in
      let same = register_unknown tx kind context target trigger stuck w unknown in
      let stands : Registered tx kind w'.db =
        subst (λ (r : Result (Unit {0}) × World). Registered tx kind (r.1).db) (sym same)
          (new-Registered tx kind context target trigger stuck w
            (ap (λ (r : Result (Unit {0}) × World). r.0) (sym same) ∙ e)) in
      (
        stands,
        λ kind' context' target' trigger' stuck'.
            register_known tx kind' context' target' trigger' stuck' w' (rw stands.1 refl),
      )
