-- ===== src/Ingestion/Dedup/Key.antt =====
-- `dedupKey` of packages/ingestion/domain/src/dedup.ts: the text that joins the two parts by a NUL is
-- opaque, as the source wants it, and so it is the pair of them here.
use counted.Base.{Bool, true, ◌&&◌, String, ◌≡◌, ◌↔◌, arith, Equality, text_equality, ◌==◌}
use counted.Base.Int.{int_equality, int_beq_iff}
use counted.Kernel.Instant.{Instant}

pub record DedupKey : Type 0 where
  pub idempotency_key : String
  pub occurred_at : Instant

abbrev pub dedup_key : String → Instant → DedupKey
dedup_key idempotency_key occurred_at = record {
  idempotency_key = idempotency_key;
  occurred_at = occurred_at;
}

abbrev pub key_beq : DedupKey → DedupKey → Bool
key_beq a b = a.idempotency_key == b.idempotency_key && a.occurred_at == b.occurred_at

pub key_beq_iff : (a b : DedupKey) → (key_beq a b ≡ true) ↔ (a ≡ b)
key_beq_iff a b = ground (
  arith,
  text_equality.same_iff a.idempotency_key b.idempotency_key,
  int_beq_iff a.occurred_at b.occurred_at,
)

instance abbrev pub key_equality : Equality DedupKey
key_equality = record { same = key_beq; same_iff = key_beq_iff }
