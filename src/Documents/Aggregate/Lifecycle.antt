-- ===== src/Documents/Aggregate/Lifecycle.antt =====
-- The life of a document: the moves of its status, and what its fields say of it.
use shiori_api.Shared.{ℕ, ◌≡◌, Bool, true, false, not, ◌&&◌, Option, none, some, Str, arith}
use shiori_api.Tenancy.{Result, ok, err, IfOk}
use shiori_api.Documents.Aggregate.{
  DocumentStatus, pending, chunking, chunked, failed, is_status, Document, Kit, Change, reason_text,
  update, request_rechunk, start_chunking, complete_chunking, fail_chunking,
}

-- The mutators that can throw, with their arguments.
pub data Operation : Type 0 where
  updates : Option Str → Option Str → Operation
  rechunks : Operation
  starts : Operation
  completes : ℕ → Operation
  fails : Str → Operation

unfoldable pub apply : Kit → ℕ → Operation → Document → Result Change
unfolding update request_rechunk start_chunking complete_chunking fail_chunking
apply kit now (updates title content) d = update kit now title content d
apply kit now rechunks d = request_rechunk kit now d
apply kit now starts d = start_chunking kit now d
apply kit now (completes count) d = complete_chunking kit now count d
apply kit now (fails reason) d = fail_chunking kit now reason d

-- The arrows of the state diagram, with the ways back to PENDING and a status that stays.
abbrev pub can_move : DocumentStatus → DocumentStatus → Bool
can_move chunking chunked = true
can_move chunking failed = true
can_move chunking _ = false
can_move pending chunking = true
can_move s pending = true
can_move s t = is_status s t

-- when each mutator is accepted
abbrev pub permitted : Kit → Operation → DocumentStatus → Bool
permitted kit (updates title content) s = not (is_status s chunking)
permitted kit rechunks s = not (is_status s chunking)
permitted kit starts s = is_status s pending
permitted kit (completes count) s = is_status s chunking
permitted kit (fails reason) s = is_status s chunking && kit.accepts reason_text reason

abbrev pub is_ok {ℓ} : {A : Type ℓ} → Result A → Bool
is_ok (ok a) = true
is_ok (err e) = false

-- A mutator throws exactly where the state diagram does not permit it: an update or a rechunk while
-- the document is CHUNKING, a start outside PENDING, a completion or failure outside CHUNKING; a
-- failure also where the value object refuses the reason.
pub apply-permitted :
    (kit : Kit) (now : ℕ) (op : Operation) (d : Document)
    → is_ok (apply kit now op d) ≡ permitted kit op d.status
unfolding apply
apply-permitted kit now (updates title content) d = ground arith
apply-permitted kit now _ d = ground arith

abbrev pub is_some {ℓ} : {A : Type ℓ} → Option A → Bool
is_some none = false
is_some (some a) = true

-- FAILED is the status of exactly the documents with a failure reason, and a document that is not
-- CHUNKED counts no chunk.
pub record IsCoherent (d : Document) : Type 0 where
  pub reason : is_some d.failure_reason ≡ is_status d.status failed
  pub count : is_status d.status chunked ≡ false → d.chunk_count ≡ 0

pub record IsMoved (d d' : Document) : Type 0 where
  pub moved : can_move d.status d'.status ≡ true
  pub same_id : d'.id ≡ d.id
  pub same_knowledge_base : d'.knowledge_base_id ≡ d.knowledge_base_id
  pub same_creation : d'.created_at ≡ d.created_at

-- A mutator that does not throw moves the status along an arrow of the state diagram, and keeps the
-- document's identifier, knowledge base and time of creation.
pub apply-IsMoved :
    (kit : Kit) (now : ℕ) (op : Operation) (d : Document)
    → IfOk (λ c. IsMoved d c.0) (apply kit now op d)
unfolding apply
apply-IsMoved kit now (updates title content) d = ground arith
apply-IsMoved kit now _ d = ground arith

-- A mutator that does not throw keeps a document coherent: FAILED exactly with a failure reason,
-- and no chunk counted outside CHUNKED.
pub apply-IsCoherent :
    (kit : Kit) (now : ℕ) (op : Operation) (d : Document)
    → IsCoherent d
    → IfOk (λ c. IsCoherent c.0) (apply kit now op d)
unfolding apply
apply-IsCoherent kit now (updates title content) d h = ground arith
apply-IsCoherent kit now _ d h = ground arith
