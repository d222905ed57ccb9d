-- ===== src/Remote/Client/Proposing.antt =====
-- What a proposal over remote calls comes to: it ends, it says what happened, and it finds a node
-- that accepts.
use distributed_transaction.Prelude.{
  ℕ, zero, suc, ◌+◌, ◌≤◌, ◌<◌, ◌≡◌, refl, String, string_eq, true, Option, none, some, List, [],
  ◌∷◌, ok, raise, contains, ltb, ltb→lt, Bool-cases, Option-cases, inl, inr, arith,
}
use distributed_transaction.Raft.Types.{LogEntry}
use distributed_transaction.Remote.Service.{PbProposeReply}
use distributed_transaction.Remote.Client.{
  Client, no_leader_accepted, ordered_nodes, follow_hint, take_reply, try_nodes, Outcome,
  run_passes, propose_command, Pass,
}

module _ {C L : Type 0} (call : String → C → L → L × Option PbProposeReply) (client : Client)
    (command : C) where
  -- a node of the client's list has accepted the command, in the call that made the world what it is
  pub record Accepted (v : String) (e : LogEntry C) (l : L) : Type 0 where
    pub before : L
    pub reply : PbProposeReply
    pub known : contains v client.addresses ≡ true
    pub called : call v command before ≡ (l, some reply)
    pub accepted : reply.accepted ≡ true
    pub entry : e ≡ record { term = reply.term; index = reply.index; command = command }

  none≢found : {x : String × LogEntry C} → ◌≡◌ {A = Option (String × LogEntry C)} none (some x) → ⊥
  none≢found h = cc

  same_found :
      {x y : String × LogEntry C} → ◌≡◌ {A = Option (String × LogEntry C)} (some x) (some y) → x ≡ y
  same_found h = cc

  taken :
      (v : String) (before l : L) (o : Option PbProposeReply) (ordered : List String)
      (next : L → List String → Pass call client command) (x : String × LogEntry C)
      → contains v client.addresses ≡ true
      → call v command before ≡ (l, o)
      → ((l' : L) (o' : List String) → (next l' o').2 ≡ some x → Accepted x.0 x.1 (next l' o').0)
      → (take_reply call client command v o l ordered next).2 ≡ some x
      → Accepted x.0 x.1 (take_reply call client command v o l ordered next).0
  taken v before l none ordered next x known called further h = further l ordered h
  taken v before l (some reply) ordered next x known called further h =
      elim (Bool-cases reply.accepted) [
        | inl takes ↦
            let e = same_found (rw takes at h) in
            rw (takes, ← e)
              (record {
                before = before;
                reply = reply;
                known = known;
                called = called;
                accepted = takes;
                entry = refl;
              })
        | inr refuses ↦
            rw refuses (further l (follow_hint client reply.leader_hint ordered) (rw refuses at h))
      ]

  try_nodes_found :
      (vs : List String) (l : L) (ordered : List String) (x : String × LogEntry C)
      → (try_nodes call client command vs l ordered).2 ≡ some x
      → Accepted x.0 x.1 (try_nodes call client command vs l ordered).0
  unfolding try_nodes
  try_nodes_found [] l ordered x h = absurd (none≢found h)
  try_nodes_found (v ∷ vs) l ordered x h = elim (Bool-cases (contains v client.addresses)) [
    | inr out ↦ rw out (try_nodes_found vs l ordered x (rw out at h))
    | inl inside ↦ rw inside (
        taken v l (call v command l).0 (call v command l).1 ordered
          (λ l' o. try_nodes call client command vs l' o) x inside refl
          (λ l' o'. try_nodes_found vs l' o' x) (rw inside at h))
  ]

  -- passes that no node accepts in: the reading before each, the order of the nodes, and the world
  pub data Refused : ℕ → List String → L → ℕ → List String → L → Type 0 where
    no_pass : (k : ℕ) (ordered : List String) (l : L) → Refused k ordered l k ordered l
    refused_pass :
        (k k' : ℕ) (ordered ordered' : List String) (l l' : L)
        → (try_nodes call client command ordered l ordered).2 ≡ none
        → Refused
            (suc k)
            (try_nodes call client command ordered l ordered).1
            (try_nodes call client command ordered l ordered).0
            k'
            ordered'
            l'
        → Refused k ordered l k' ordered' l'

  -- what an outcome says of the calls made from a reading on, in an order, on a world
  abbrev pub Justified : (ℕ → ℕ) → ℕ → ℕ → List String → L → Outcome call client command → Type 0
  Justified clock deadline k ordered l (k', client', ok e, l') =
      (v : String) × (j : ℕ) × (ordered' : List String) × (before : L) × (k' ≡ suc j)
      × (clock j < deadline)
      × Refused k ordered l j ordered' before
      × ((try_nodes call client command ordered' before ordered').0 ≡ l')
      × (client' ≡ record client { last_known_leader = some v })
      × Accepted v e l'
  Justified clock deadline k ordered l (k', client', raise e, l') =
      (j : ℕ) × (ordered' : List String) × (k' ≡ suc j)
      × (deadline ≤ clock j)
      × Refused k ordered l j ordered' l'
      × (client' ≡ client)

  -- an outcome that the loop has, from a pass on
  abbrev Ends : (ℕ → ℕ) → ℕ → ℕ → ℕ → List String → L → Type 0
  Ends clock deadline k fuel ordered l =
      (o : Outcome call client command) × (run_passes call client command clock deadline k fuel
          ordered l
        ≡ some o)
      × Justified clock deadline k ordered l o

  Justified-after :
      (clock : ℕ → ℕ) (deadline k : ℕ) (ordered : List String) (l : L)
      (o : Outcome call client command)
      → (try_nodes call client command ordered l ordered).2 ≡ none
      → Justified clock deadline
          (suc k)
          (try_nodes call client command ordered l ordered).1
          (try_nodes call client command ordered l ordered).0
          o
      → Justified clock deadline k ordered l o
  Justified-after clock deadline k ordered l (k', client', ok e, l') missing
        (v, j, ordered', before, at, early, passed, done, known, a) =
      (
        v,
        j,
        ordered',
        before,
        at,
        early,
        refused_pass k j ordered ordered' l before missing passed,
        done,
        known,
        a,
      )
  Justified-after clock deadline k ordered l (k', client', raise e, l') missing
        (j, ordered', at, late, passed, same) =
      (j, ordered', at, late, refused_pass k j ordered ordered' l l' missing passed, same)

  pass-Ends :
      (clock : ℕ → ℕ) (deadline k fuel : ℕ) (ordered : List String) (l : L)
      → ((l' : L) (ordered' : List String)
          → clock k < deadline
          → Ends clock deadline (suc k) fuel ordered' l')
      → Ends clock deadline k (suc fuel) ordered l
  unfolding run_passes
  pass-Ends clock deadline k fuel ordered l rest =
      let tried = try_nodes call client command ordered l ordered in
      elim (Bool-cases (ltb (clock k) deadline)) [
        | inr late ↦ (
          (suc k, client, raise no_leader_accepted, l),
          rw late refl,
          (k, ordered, refl, ground arith, no_pass k ordered l, refl),
        )
        | inl early ↦ elim (Option-cases tried.2) [
          | inr (x, found) ↦ (
            (suc k, record client { last_known_leader = some x.0 }, ok x.1, tried.0),
            rw (early, found) refl,
            (
              x.0,
              k,
              ordered,
              l,
              refl,
              ltb→lt (clock k) deadline early,
              no_pass k ordered l,
              refl,
              refl,
              try_nodes_found ordered l ordered x found,
            ),
          )
          | inl missing ↦
              let (o, e, j) = rest tried.0 tried.1 (ltb→lt (clock k) deadline early) in
              (o, rw (early, missing) e, Justified-after clock deadline k ordered l o missing j)
        ]
      ]

  run_passes_total :
      (clock : ℕ → ℕ) (deadline k fuel : ℕ) (ordered : List String) (l : L)
      → ((j : ℕ) → clock j < clock (suc j))
      → deadline ≤ clock k + fuel
      → Ends clock deadline k (suc fuel) ordered l
  run_passes_total clock deadline k zero ordered l grows enough =
      pass-Ends clock deadline k zero ordered l (λ l' o early. absurd (omega arith))
  run_passes_total clock deadline k (suc fuel) ordered l grows enough =
      pass-Ends clock deadline k (suc fuel) ordered l (λ l' o early.
        run_passes_total clock deadline (suc k) fuel o l' grows (omega (arith, grows k)))

  pub propose_command_total :
      (clock : ℕ → ℕ) (timeout : ℕ) (l : L)
      → ((j : ℕ) → clock j < clock (suc j))
      → (o : Outcome call client command) × (propose_command call client command clock timeout
            (suc timeout)
            l
          ≡ some o)
        × Justified clock (clock 0 + timeout) 1 (ordered_nodes client) l o
  unfolding propose_command
  propose_command_total clock timeout l grows =
      run_passes_total clock (clock 0 + timeout) 1 timeout (ordered_nodes client) l grows
        (omega (arith, grows 0))
