-- ===== src/Raft/Election/Votes.antt =====
-- What votes that are cast make true, and go on making true.
use distributed_transaction.Prelude.{
  Distinct, All, All-mono, ℕ, ◌+◌, ◌≤◌, ◌≡◌, refl, sym, ◌∙◌, String, string_eq, eq_iff, ◌==◌, true,
  false, Option, some, none, List, [], ◌∷◌, arith, contains, discard, length, if◌then◌else◌,
  Bool-cases, ◌⊎◌, inl, inr,
}
use distributed_transaction.Raft.Types.{Message, request_vote, request_vote_reply}
use distributed_transaction.Raft.Storage.{Storage}
use distributed_transaction.Raft.Node.{Node, Config, current_term}
use distributed_transaction.Raft.Driver.Ballots.{Advances, later_term, same_vote, first_vote}
use distributed_transaction.Raft.Election.Quorum.{Within}
use distributed_transaction.Raft.Election.Honest.{Votes, TrueMessage, TrueEnvelope, Honest}
use distributed_transaction.Raft.Cluster.{In}

pub not_cast : {x : String} → ◌≡◌ {A = Option String} none (some x) → ⊥
not_cast h = cc

pub some_eq : {x y : String} → ◌≡◌ {A = Option String} (some x) (some y) → x ≡ y
some_eq h = cc

pub apart : (v u : String) → (v == u) ≡ false → u ≡ v → ⊥
apart v u e same = ground (arith, eq_iff v u)

pub All-In : {A : Type 0} (P : A → Type 0) (x : A) (xs : List A) → All P xs → In x xs → P x
All-In P x [] a i = absurd i
All-In P x (y ∷ ys) a (inl e) = rw e a.0
All-In P x (y ∷ ys) a (inr i) = All-In P x ys a.1 i

pub All-contains :
    (P : String → Type 0) (x : String) (xs : List String) → All P xs → contains x xs ≡ true → P x
All-contains P x [] a h = cc
All-contains P x (y ∷ ys) a h = elim (Bool-cases (y == x)) [
  | inl here ↦ rw (← (eq_iff y x).0 here) a.0
  | inr there ↦ All-contains P x ys a.1 (rw there at h)
]

pub All-Within : (ids xs : List String) → All (λ x. contains x ids ≡ true) xs → Within xs ids
All-Within ids [] a = tt
All-Within ids (x ∷ xs) a = (a.0, All-Within ids xs a.1)

pub length-discard_once :
    (x : String) (xs : List String)
    → Distinct xs
    → length (discard x xs) + (if contains x xs then 1 else 0) ≡ length xs
length-discard_once x [] d = refl
length-discard_once x (y ∷ ys) d = ground (arith, length-discard_once x ys d.1, eq_iff y x)

-- More votes cast make no envelope false.
pub TrueMessage-mono :
    {C : Type 0} (B B' : Votes)
    → ((u : String) (t : ℕ) (c : String) → B u t c → B' u t c)
    → (s r : String) (m : Message C) → TrueMessage B s r m
    → TrueMessage B' s r m
TrueMessage-mono B B' up s r (request_vote args) h = h
TrueMessage-mono B B' up s r (request_vote_reply reply) h =
    λ granted. up reply.voter_id reply.term r (h granted)
TrueMessage-mono B B' up s r _ h = tt

pub Honest-mono :
    {C S : Type 0} (cfg : Config C S) (B B' : Votes) (n : Node C S)
    → ((u : String) (t : ℕ) (c : String) → B u t c → B' u t c)
    → Honest cfg B n
    → Honest cfg B' n
Honest-mono cfg B B' n up h = record {
  votes =
      All-mono (λ u. B u (current_term n) cfg.node_id) (λ u. B' u (current_term n) cfg.node_id)
        n.votes_received (λ u. up u (current_term n) cfg.node_id) h.votes;
  distinct = h.distinct;
  quorum = h.quorum;
  sent =
      All-mono (TrueEnvelope B) (TrueEnvelope B') n.sent
        (λ e. TrueMessage-mono B B' up e.sender_id e.recipient_id e.message) h.sent;
}

module _ {C : Type 0} {s s' : Storage C} (t : ℕ) (x : String) where
  pub Advances-past : Advances s s' → t ≤ s.current_term → t ≤ s'.current_term
  Advances-past (later_term a) h = omega arith
  Advances-past (same_vote a b) h = omega arith
  Advances-past (first_vote a b) h = omega arith

  pub Advances-present :
      Advances s s'
      → t ≤ s.current_term
      → (t ≡ s.current_term → s.voted_for ≡ some x)
      → t ≡ s'.current_term
      → s'.voted_for ≡ some x
  Advances-present (later_term a) h p e = absurd (omega arith)
  Advances-present (same_vote a b) h p e = b ∙ p (e ∙ a)
  Advances-present (first_vote a b) h p e = absurd (not_cast (sym b ∙ p (e ∙ a)))

-- the votes cast, with the vote that the node `v` holds
abbrev pub Cast : {C : Type 0} → Votes → String → Storage C → Votes
Cast B v s u t x = B u t x ⊎ ((u ≡ v) × (t ≡ s.current_term) × (s.voted_for ≡ some x))
