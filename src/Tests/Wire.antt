-- ===== src/Tests/Wire.antt =====
-- Messages on the wire at concrete inputs.
use distributed_transaction.Prelude.{String, string_eq, ℕ, ◌+◌, ◌-◌, ◌≡◌, some, [], ◌∷◌, arith}
use distributed_transaction.Raft.Types.{Message, Envelope, append_entries}
use distributed_transaction.Raft.Transport.{Transport, inbox}
use distributed_transaction.Raft.Transport.Order.{send_all, inbox-send_all}
use distributed_transaction.Remote.Serialization.{to_proto, from_proto, from_proto-to_proto}

abbrev message : Message ℕ
message = append_entries (record {
  term = 3;
  leader_id = "a";
  prev_log_index = 2;
  prev_log_term = some 1;
  entries = record { term = 3; index = 3; command = 7 } ∷ [];
  leader_commit = 2;
})

-- a pickle that adds a byte
from_proto-to_proto_example :
    from_proto (λ c. c + 1) (λ p. p - 1) (to_proto (λ c. c + 1) (λ p. p - 1) message) ≡ message
from_proto-to_proto_example =
    from_proto-to_proto (λ c. c + 1) (λ p. p - 1) message (λ c. omega arith)

abbrev envelope : String → String → Envelope ℕ
envelope sender recipient = record {
  sender_id = sender;
  recipient_id = recipient;
  message = message;
}

abbrev network : Transport ℕ
network = record { inboxes = []; partitioned = "c" ∷ [] }

-- `c` is cut off
inbox-send_all_example :
    inbox (send_all (envelope "a" "b" ∷ envelope "c" "b" ∷ envelope "a" "c" ∷ []) network) "b"
    ≡ envelope "a" "b" ∷ []
inbox-send_all_example =
    inbox-send_all (envelope "a" "b" ∷ envelope "c" "b" ∷ envelope "a" "c" ∷ []) network "b"
