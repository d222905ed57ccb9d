-- ===== src/Remote/Client/Reaching.antt =====
-- A node that accepts is found at once, and what a cluster accepts is in its leader's log.
use distributed_transaction.Prelude.{
  ℕ, suc, ◌+◌, ◌<◌, ◌≡◌, refl, String, string_eq, eq_iff, ◌==◌, true, false, Option, none, some,
  List, [], ◌∷◌, ◌++◌, ok, contains, lt→ltb, Bool-cases, inl, inr, arith,
}
use distributed_transaction.Raft.Types.{LogEntry}
use distributed_transaction.Remote.Service.{PbProposeReply}
use distributed_transaction.Remote.Client.{
  Client, without, known_leader, ordered_nodes, follow_hint, take_reply, try_nodes, run_passes,
  propose_command, Pass,
}

contains-append_right :
    (v : String) (xs ys : List String) → contains v ys ≡ true → contains v (xs ++ ys) ≡ true
contains-append_right v [] ys h = h
contains-append_right v (x ∷ xs) ys h = ground (arith, contains-append_right v xs ys h)

contains-append_left :
    (v : String) (xs ys : List String) → contains v xs ≡ true → contains v (xs ++ ys) ≡ true
contains-append_left v [] ys h = cc
contains-append_left v (x ∷ xs) ys h = ground (arith, contains-append_left v xs ys)

contains-without :
    (v : String) (seen xs : List String)
    → contains v seen ≡ false
    → contains v xs ≡ true
    → contains v (without seen xs) ≡ true
contains-without v seen [] out h = cc
contains-without v seen (x ∷ xs) out h = ground (arith, eq_iff x v, contains-without v seen xs out)

contains-ordered_nodes :
    (client : Client) (v : String)
    → contains v client.addresses ≡ true
    → contains v (ordered_nodes client) ≡ true
contains-ordered_nodes client v h =
    let first = known_leader client.last_known_leader in
    elim (Bool-cases (contains v first)) [
      | inl known ↦ contains-append_left v first _ known
      | inr other ↦
          contains-append_right v first _ (contains-without v first client.addresses other h)
    ]

module _ {C L : Type 0} (call : String → C → L → L × Option PbProposeReply) (client : Client)
    (command : C) where
  -- a call of the node is answered, and the command taken
  abbrev pub Accepts : String → Type 0
  Accepts v =
      (l : L)
      → (reply : PbProposeReply) × ((call v command l).1 ≡ some reply) × (reply.accepted ≡ true)

  -- a pass has found an entry
  abbrev Finds : Pass call client command → Type 0
  Finds p = (x : String × LogEntry C) × (p.2 ≡ some x)

  reply-Finds :
      (v : String) (o : Option PbProposeReply) (l : L) (ordered : List String)
      (next : L → List String → Pass call client command)
      → ((l' : L) (ordered' : List String) → Finds (next l' ordered'))
      → Finds (take_reply call client command v o l ordered next)
  reply-Finds v none l ordered next rest = rest l ordered
  reply-Finds v (some reply) l ordered next rest = elim (Bool-cases reply.accepted) [
    | inl takes ↦ rw takes (_, refl)
    | inr refuses ↦ rw refuses (rest l (follow_hint client reply.leader_hint ordered))
  ]

  try_nodes-Finds :
      (v : String) (vs : List String) (l : L) (ordered : List String)
      → contains v client.addresses ≡ true
      → contains v vs ≡ true
      → Accepts v
      → Finds (try_nodes call client command vs l ordered)
  unfolding try_nodes
  try_nodes-Finds v [] l ordered known h accepts = cc
  try_nodes-Finds v (u ∷ us) l ordered known h accepts = elim (Bool-cases (u == v)) [
    | inl here ↦
        let (reply, answered, takes) = accepts l in
        let e = (eq_iff u v).0 here in rw (e, known, answered, takes) (_, refl)
    | inr there ↦
        let further =
          λ (l' : L) (o : List String). try_nodes-Finds v us l' o known (rw there at h) accepts in
        elim (Bool-cases (contains u client.addresses)) [
          | inr out ↦ rw out (further l ordered)
          | inl inside ↦ rw inside (
              reply-Finds u (call u command l).1 (call u command l).0 ordered
                (λ l' o. try_nodes call client command us l' o) further)
        ]
  ]

  -- Where one of the client's nodes takes the command whenever it is called, and the deadline has
  -- not passed before the first pass, `propose` returns an entry in its first pass, whatever the
  -- other nodes do and whichever leader the client knew.
  pub propose_command_found :
      (v : String) (clock : ℕ → ℕ) (timeout fuel : ℕ) (l : L)
      → contains v client.addresses ≡ true
      → Accepts v
      → clock 1 < clock 0 + timeout
      → (client' : Client) × (e : LogEntry C) × (l' : L) × (propose_command call client command
            clock timeout
            (suc fuel)
            l
          ≡ some (2, client', ok e, l'))
  unfolding propose_command run_passes
  propose_command_found v clock timeout fuel l known accepts early =
      let ordered = ordered_nodes client in
      let (x, found) =
        try_nodes-Finds v ordered l ordered known (contains-ordered_nodes client v known) accepts in
      (
        record client { last_known_leader = some x.0 },
        x.1,
        (try_nodes call client command ordered l ordered).0,
        rw (lt→ltb (clock 1) (clock 0 + timeout) early, found) refl,
      )
