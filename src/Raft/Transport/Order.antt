-- ===== src/Raft/Transport/Order.antt =====
-- What arrives in an inbox, and in which order.
use distributed_transaction.Prelude.{
  ◌≡◌, sym, ◌∙◌, String, string_eq, eq_iff, ◌==◌, Bool, ◌||◌, List, [], ◌∷◌, ◌++◌, get_default-put,
  contains, if◌then◌else◌, Bool-cases, inl, inr, arith,
}
use mathlib.Core.List.{append_assoc, append-nil}
use distributed_transaction.Raft.Types.{Envelope}
use distributed_transaction.Raft.Transport.{Transport, inbox, send}

module _ {C : Type 0} where
  -- the sends of a list, in order
  abbrev pub send_all : List (Envelope C) → Transport C → Transport C
  send_all [] t = t
  send_all (e ∷ es) t = send_all es (send e t)

  abbrev pub is_cut : List String → Envelope C → Bool
  is_cut cut e = contains e.sender_id cut || contains e.recipient_id cut

  -- the envelopes to a node of which neither end is cut off, in order
  abbrev pub passed : List String → String → List (Envelope C) → List (Envelope C)
  passed cut v [] = []
  passed cut v (e ∷ es) =
      let rest = passed cut v es in
      if is_cut cut e then rest else if e.recipient_id == v then e ∷ rest else rest

  arrived :
      (e : Envelope C) (t : Transport C) (v : String)
      → (if e.recipient_id == v then inbox t e.recipient_id ++ e ∷ [] else inbox t v)
        ≡ inbox t v ++ (if e.recipient_id == v then e ∷ [] else [])
  arrived e t v = elim (Bool-cases (e.recipient_id == v)) [
    | inl here ↦ rw (here, (eq_iff e.recipient_id v).0 here)
    | inr other ↦ rw other (sym (append-nil (inbox t v)))
  ]

  inbox-send :
      (e : Envelope C) (t : Transport C) (v : String)
      → inbox (send e t) v ≡ inbox t v ++ passed t.partitioned v (e ∷ [])
  unfolding send
  inbox-send e t v = elim (Bool-cases (is_cut t.partitioned e)) [
    | inl cut ↦ rw (cut, send) (sym (append-nil (inbox t v)))
    | inr whole ↦
        rw
          (
            whole,
            send,
            get_default-put e.recipient_id v [] (inbox t e.recipient_id ++ e ∷ []) t.inboxes,
          )
          (arrived e t v)
  ]

  partitioned-send : (e : Envelope C) (t : Transport C) → (send e t).partitioned ≡ t.partitioned
  unfolding send
  partitioned-send e t = ground arith

  passed-first :
      (cut : List String) (v : String) (e : Envelope C) (es : List (Envelope C))
      → passed cut v (e ∷ es) ≡ passed cut v (e ∷ []) ++ passed cut v es
  passed-first cut v e es = ground arith

  -- After some sends an inbox holds what it held before and then, in the order of the sends, the
  -- envelopes to its node of which neither end is cut off, and nothing else.
  pub inbox-send_all :
      (es : List (Envelope C)) (t : Transport C) (v : String)
      → inbox (send_all es t) v ≡ inbox t v ++ passed t.partitioned v es
  inbox-send_all [] t v = sym (append-nil (inbox t v))
  inbox-send_all (e ∷ es) t v =
      inbox-send_all es (send e t) v
      ∙ rw (partitioned-send e t, inbox-send e t v, passed-first t.partitioned v e es)
          (append_assoc (inbox t v) (passed t.partitioned v (e ∷ [])) (passed t.partitioned v es))
