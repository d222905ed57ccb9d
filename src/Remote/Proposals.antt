-- ===== src/Remote/Proposals.antt =====
-- A client of coordinator/grpc/raft_cluster_client.py before a cluster whose nodes it calls. A call
-- may not arrive, or its reply may not. Call number `k` is served, if it is, after the cluster has
-- gone on by itself, ticked, elected, restarted and called from elsewhere, as `others k` says, and
-- it goes on by `meanwhile k` before the client sees the reply, or gives up.
use distributed_transaction.Prelude.{
  ℕ, suc, ◌<◌, ◌≡◌, refl, sym, ap, ◌∙◌, String, string_eq, eq_iff, true, false, Option, none, some,
  ok, Option-cases, inl, inr,
}
use distributed_transaction.Raft.Types.{LogEntry}
use distributed_transaction.Raft.Node.{Node, Config}
use distributed_transaction.Raft.Driver.{propose}
use distributed_transaction.Raft.Driver.Proposing.{Holds, propose-Holds}
use distributed_transaction.Raft.Cluster.{ClusterConfig, World, update, build_config}
use distributed_transaction.Remote.Service.{PbProposeReply, serve_propose}
use distributed_transaction.Remote.Client.{Client, propose_command}
use distributed_transaction.Remote.Client.Proposing.{Accepted, propose_command_total}

-- what becomes of a call
pub data Fate : Type 0 where
  lost unanswered answered : Fate

module _ {C P S : Type 0} (dumps : C → P) (loads : P → C) (c : ClusterConfig C S) (now : ℕ → ℕ)
    (fate : ℕ → Fate) (others meanwhile : ℕ → World C S → World C S) where
  -- a call of `Propose` at a node, with the number of calls made so far
  abbrev pub propose_at : String → C → ℕ × World C S → (ℕ × World C S) × Option PbProposeReply
  propose_at v command (k, w) =
      let w' = others k w in
      let r = serve_propose dumps loads (build_config c v) (dumps command) (now k) (w' v) in
      elim (fate k) [
        | lost ↦ ((suc k, meanwhile k w'), none)
        | unanswered ↦ ((suc k, meanwhile k (update w' v r.0)), none)
        | answered ↦ ((suc k, meanwhile k (update w' v r.0)), some r.1)
      ]

same_fields :
    {C : Type 0} {reply r : PbProposeReply} {e : LogEntry C} {command sent : C}
    → reply ≡ r
    → r.term ≡ e.term
    → r.index ≡ e.index
    → sent ≡ command
    → e.command ≡ sent
    → record { term = reply.term; index = reply.index; command = command } ≡ e
same_fields same t i law own = rw (same, t, i, ← law, ← own) refl

not_true : false ≡ true → ⊥
not_true h = cc

no_reply : {r : PbProposeReply} → ◌≡◌ {A = Option PbProposeReply} none (some r) → ⊥
no_reply h = cc

same_reply : {r r' : PbProposeReply} → ◌≡◌ {A = Option PbProposeReply} (some r) (some r') → r ≡ r'
same_reply h = cc

one_outcome : {A : Type 0} {x y : A} → ◌≡◌ {A = Option A} (some x) (some y) → x ≡ y
one_outcome h = cc

module _ {C P S : Type 0} (dumps : C → P) (loads : P → C) (c : ClusterConfig C S) (now : ℕ → ℕ)
    (fate : ℕ → Fate) (others meanwhile : ℕ → World C S → World C S) where
  accepted_proposal :
      (cfg : Config C S) (command : P) (t : ℕ) (n : Node C S)
      → (serve_propose dumps loads cfg command t n).1.accepted ≡ true
      → (e : LogEntry C) × ((propose cfg (loads command) t n).1 ≡ some e)
  unfolding serve_propose
  accepted_proposal cfg command t n h = elim (Option-cases (propose cfg (loads command) t n).1) [
    | inl refused ↦ absurd (not_true (rw refused at h))
    | inr found ↦ found
  ]

  -- the reply of a node that takes a command
  reply_entry :
      (cfg : Config C S) (command : P) (t : ℕ) (n : Node C S) (e : LogEntry C)
      → (propose cfg (loads command) t n).1 ≡ some e
      → ((serve_propose dumps loads cfg command t n).1.term ≡ e.term)
        × ((serve_propose dumps loads cfg command t n).1.index ≡ e.index)
  unfolding serve_propose
  reply_entry cfg command t n e h = rw h (refl, refl)

  -- a call that is answered is one that the node has served
  answered_call :
      (f : Fate) (l0 l l1 : ℕ × World C S) (r1 reply : PbProposeReply)
      → ◌≡◌ {A = (ℕ × World C S) × Option PbProposeReply}
          (elim f [ lost ↦ (l0, none) | unanswered ↦ (l1, none) | answered ↦ (l1, some r1) ])
          (l, some reply)
      → (l ≡ l1) × (reply ≡ r1)
  answered_call lost l0 l l1 r1 reply h =
      absurd (no_reply (ap (λ (p : (ℕ × World C S) × Option PbProposeReply). p.1) h))
  answered_call unanswered l0 l l1 r1 reply h =
      absurd (no_reply (ap (λ (p : (ℕ × World C S) × Option PbProposeReply). p.1) h))
  answered_call answered l0 l l1 r1 reply h = (
    sym (ap (λ (p : (ℕ × World C S) × Option PbProposeReply). p.0) h),
    sym (same_reply (ap (λ (p : (ℕ × World C S) × Option PbProposeReply). p.1) h)),
  )

  -- the last call was served in a world where the node then led in the term of the entry, which
  -- stood at its index in the node's log; what is left is what became of that world meanwhile
  abbrev pub ServedBy : String → LogEntry C → ℕ × World C S → Type 0
  ServedBy v e (k', w') =
      (k : ℕ) × (served : World C S) × (k' ≡ suc k) × (w' ≡ meanwhile k served) × Holds e (served v)

  Accepted-ServedBy :
      (client : Client) (command : C) (v : String) (e : LogEntry C) (l : ℕ × World C S)
      → ((x : C) → loads (dumps x) ≡ x)
      → Accepted (propose_at dumps loads c now fate others meanwhile) client command v e l
      → ServedBy v e l
  unfolding serve_propose
  Accepted-ServedBy client command v e l law a =
      let cfg = build_config c v in
      let k = a.before.0 in
      let w = others k a.before.1 in
      let n = w v in
      let r = serve_propose dumps loads cfg (dumps command) (now k) n in
      let served = update w v r.0 in
      let (el, er) =
        answered_call (fate k) (suc k, meanwhile k w) l (suc k, meanwhile k served) r.1 a.reply
          a.called in
      let (e', p) = accepted_proposal cfg (dumps command) (now k) n (rw er at a.accepted) in
      let (command', held) = propose-Holds cfg (loads (dumps command)) (now k) n e' p in
      let (et, ei) = reply_entry cfg (dumps command) (now k) n e' p in
      let one : e ≡ e' = a.entry ∙ same_fields er et ei (law command) command' in
      rw el (k, served, refl, refl, rw (one, (eq_iff v v).1 refl) held)

  -- What `propose` returns over the calls of a cluster, whichever calls or replies are lost and
  -- whatever the cluster does by itself before and after each call is served, is an entry with the
  -- command. When the last call was served, its node, which the client takes for the leader from
  -- then on, led in the term of the entry, and the entry stood at its index in that node's log. The
  -- clock advances from one pass to the next, and `loads` undoes `dumps`.
  pub proposed_in_log :
      (client client' : Client) (command : C) (clock : ℕ → ℕ) (timeout k : ℕ) (l l' : ℕ × World C S)
      (e : LogEntry C)
      → ((x : C) → loads (dumps x) ≡ x)
      → ((j : ℕ) → clock j < clock (suc j))
      → propose_command
          (propose_at dumps loads c now fate others meanwhile)
          client
          command
          clock
          timeout
          (suc timeout)
          l
        ≡ some (k, client', ok e, l')
      → (v : String) × (client'.last_known_leader ≡ some v)
        × (e.command ≡ command)
        × ServedBy v e l'
  proposed_in_log client client' command clock timeout k l l' e law grows h =
      let call = propose_at dumps loads c now fate others meanwhile in
      let (o, done, just) = propose_command_total call client command clock timeout l grows in
      let same = one_outcome (sym done ∙ h) in
      let (v, j, ordered, before, at, early, passed, left, known, a) = rw same at just in
      (
        v,
        ap (λ (x : Client). x.last_known_leader) known,
        ap (λ (x : LogEntry C). x.command) a.entry,
        Accepted-ServedBy client command v e l' law a,
      )
