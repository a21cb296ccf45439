-- ===== src/Documents/Tests/Interleavings.antt =====
-- A worker of knowledge base 10 finishes the job of a document that a command has deleted, next to knowledge base 20.
use shiori_api.Shared.{ℕ, ◌≢◌, refl, some, [], ◌∷◌, ◌==◌, ◌||◌, if◌then◌else◌, arith}
use shiori_api.Documents.Aggregate.{chunking}
use shiori_api.Documents.Store.{Store}
use shiori_api.Documents.Commands.{execute_delete}
use shiori_api.Documents.Processor.{finish}
use shiori_api.Documents.Interleavings.{
  System, Held, Trace, start, next, deletes, finishes, IsSound, Trace-IsSound, IsUntouched,
  Trace-IsUntouched,
}
use shiori_api.Documents.Tests.{kit, doc, store, worker}

owner : ℕ → ℕ
owner i = if (i == 2) || (i == 51) then 20 else 10

abbrev held : Held
held = record { knowledge_base_id = 10; document = record doc { status = chunking } }

abbrev before : System
before = record { store = store; held = held ∷ [] }

abbrev deleted : Store
deleted = (execute_delete kit 7 1 (some 10) store).1

abbrev after : System
after = record { store = (finish worker held.document (some 10) deleted).1; held = [] }

trace_of : (P : ℕ → Type 0) → P 10 → Trace owner P before after
unfolding owner
trace_of P p =
    next (next start 10 p (deletes before kit 7 1)) 10 p
      (finishes deleted worker held.document [] [] (λ n. ground arith))

before-IsSound : IsSound owner before
unfolding owner
before-IsSound = record {
  store = record {
    documents = (refl, (refl, tt));
    chunks = ((refl, refl), tt);
    jobs = tt;
    there = (refl, tt);
  };
  held = ((refl, refl), tt);
}

Trace-IsSound_example : IsSound owner after
Trace-IsSound_example = Trace-IsSound owner before-IsSound (trace_of (λ frame. Unit) tt)

apart : ◌≢◌ {A = ℕ} 10 20
apart h = omega arith

Trace-IsUntouched_example : IsUntouched 20 before.store after.store
Trace-IsUntouched_example =
    Trace-IsUntouched owner 20 before-IsSound (trace_of (λ frame. ◌≢◌ {A = ℕ} frame 20) apart)
