-- ===== src/Documents/Interleavings.antt =====
-- The commands, the phases of the jobs and the listener of the documents context in any order, of any number of knowledge
-- bases: a worker that has begun a job holds the aggregate of its document, and finishes it or never does.
use shiori_api.Shared.{
  ℕ, ◌≡◌, ◌≢◌, refl, sym, ◌∙◌, ap, Bool, not, Option, none, some, List, [], ◌∷◌, ◌++◌, ◌==◌,
  get_elem?, arith, filter, filter-filter, All,
}
use shiori_api.Tenancy.{Result, ok, err, IfOk}
use shiori_api.Documents.Aggregate.{Document, Kit}
use shiori_api.Documents.Store.{Chunk, Store}
use shiori_api.Documents.Store.Ownership.{
  IsConsistent, IsLeft, IsLeft-refl, other_documents, other_chunks,
}
use shiori_api.Documents.Store.Ownership.Operations.{Mine, FoundMine}
use shiori_api.Documents.Commands.{
  CreateDocumentCommand, UpdateDocumentCommand, execute_create, execute_update, execute_rechunk,
  execute_delete, delete_loop,
}
use shiori_api.Documents.Commands.Frame.{
  Respects-execute_create, Respects-execute_update, Respects-execute_rechunk,
  Respects-execute_delete, Respects-delete_loop,
}
use shiori_api.Documents.Processor.{Worker, begin, finish}
use shiori_api.Documents.Processor.Frame.{Respects-begin, Respects-finish}

-- an aggregate that a worker holds, and the frame of its job
pub record Held : Type 0 where
  pub knowledge_base_id : ℕ
  pub document : Document

pub record System : Type 0 where
  pub store : Store
  pub held : List Held

-- what a first phase adds
abbrev pub hold : ℕ → Result (Option Document) → List Held → List Held
hold kb (ok (some d)) held = record { knowledge_base_id = kb; document = d } ∷ held
hold kb (ok none) held = held
hold kb (err e) held = held

-- the rows of a knowledge base
abbrev pub documents_of : ℕ → Store → List Document
documents_of kb s = filter (λ d. d.knowledge_base_id == kb) s.documents

abbrev pub chunks_of : ℕ → Store → List Chunk
chunks_of kb s = filter (λ c. c.knowledge_base_id == kb) s.chunks

pub record IsUntouched (kb : ℕ) (s t : Store) : Type 0 where
  pub documents : documents_of kb t ≡ documents_of kb s
  pub chunks : chunks_of kb t ≡ chunks_of kb s

module _ (owner : ℕ → ℕ) where
  -- A step in the frame of a knowledge base. Identifiers that it generates are the knowledge base's, and a command for a
  -- creation names the frame, as the transports make it.
  pub data Step (kb : ℕ) : System → System → Type 0 where
    creates :
        (sys : System) (kit : Kit) (now max id : ℕ) (command : CreateDocumentCommand)
        → owner id ≡ kb
        → command.knowledge_base_id ≡ kb
        → Step kb sys
            (record sys { store = (execute_create kit now max id command (some kb) sys.store).1 })
    updates :
        (sys : System) (kit : Kit) (now max : ℕ) (command : UpdateDocumentCommand)
        → Step kb sys
            (record sys { store = (execute_update kit now max command (some kb) sys.store).1 })
    rechunks :
        (sys : System) (kit : Kit) (now id : ℕ)
        → Step kb sys (record sys { store = (execute_rechunk kit now id (some kb) sys.store).1 })
    deletes :
        (sys : System) (kit : Kit) (now id : ℕ)
        → Step kb sys (record sys { store = (execute_delete kit now id (some kb) sys.store).1 })
    purges :
        (sys : System) (kit : Kit) (page_of : ℕ → (Document → Bool) → List Document → List Document)
        (fuel : ℕ)
        → Step kb sys (record sys { store = (delete_loop kit page_of fuel (some kb) sys.store).1 })
    begins :
        (sys : System) (w : Worker) (id n : ℕ)
        → get_elem? sys.store.jobs n ≡ some (record { document_id = id; knowledge_base_id = kb })
        → Step kb sys (record {
          store = (begin w id (some kb) sys.store).1;
          held = hold kb (begin w id (some kb) sys.store).0 sys.held;
        })
    finishes :
        (s : Store) (w : Worker) (d : Document) (before after : List Held)
        → ((n : ℕ) → owner (w.uuid n) ≡ kb)
        → Step kb
            (record {
              store = s;
              held = before ++ record { knowledge_base_id = kb; document = d } ∷ after;
            })
            (record { store = (finish w d (some kb) s).1; held = before ++ after })
    abandons :
        (s : Store) (d : Document) (before after : List Held)
        → Step kb
            (record {
              store = s;
              held = before ++ record { knowledge_base_id = kb; document = d } ∷ after;
            })
            (record { store = s; held = before ++ after })

  -- steps in frames that meet `P`
  pub data Trace (P : ℕ → Type 0) (sys : System) : System → Type 0 where
    start : Trace P sys sys
    next : {t u : System} → Trace P sys t → (kb : ℕ) → P kb → Step kb t u → Trace P sys u

  abbrev pub IsMine : Held → Type 0
  IsMine h = Mine owner h.knowledge_base_id h.document

  -- Tables and queue agree with the owners of identifiers, every chunk's document is there, and workers hold documents of
  -- the frames of their jobs.
  pub record IsSound (sys : System) : Type 0 where
    pub store : IsConsistent owner sys.store
    pub held : All IsMine sys.held

  All-without :
      {A : Type 0} (P : A → Type 0) (a : A) (xs ys : List A)
      → All P (xs ++ a ∷ ys)
      → P a × All P (xs ++ ys)
  All-without P a [] ys (ha, h) = (ha, h)
  All-without P a (x ∷ xs) ys (hx, h) = let (ha, rest) = All-without P a xs ys h in (ha, (hx, rest))

  hold-IsMine :
      (kb : ℕ) (r : Result (Option Document)) (held : List Held)
      → IfOk (FoundMine owner kb) r
      → All IsMine held
      → All IsMine (hold kb r held)
  hold-IsMine kb (ok (some d)) held mine h = (mine, h)
  hold-IsMine kb (ok none) held mine h = h
  hold-IsMine kb (err e) held mine h = h

  -- a step, in its frame
  record IsStepped (kb : ℕ) (s t : System) : Type 0 where
    left : IsLeft owner kb s.store t.store
    held : All IsMine t.held

  Step-IsStepped : (kb : ℕ) {s t : System} → IsSound s → Step kb s t → IsStepped kb s t
  Step-IsStepped kb h (creates sys kit now max id command own here) = record {
    left = (Respects-execute_create owner kb kit now max id command own here sys.store h.store).0;
    held = h.held;
  }
  Step-IsStepped kb h (updates sys kit now max command) = record {
    left = (Respects-execute_update owner kb kit now max command sys.store h.store).0;
    held = h.held;
  }
  Step-IsStepped kb h (rechunks sys kit now id) = record {
    left = (Respects-execute_rechunk owner kb kit now id sys.store h.store).0;
    held = h.held;
  }
  Step-IsStepped kb h (deletes sys kit now id) = record {
    left = (Respects-execute_delete owner kb kit now id sys.store h.store).0;
    held = h.held;
  }
  Step-IsStepped kb h (purges sys kit page_of fuel) = record {
    left = (Respects-delete_loop owner kb kit page_of fuel sys.store h.store).0;
    held = h.held;
  }
  Step-IsStepped kb h (begins sys w id n e) =
      let (left, mine) = Respects-begin owner kb w id sys.store h.store in
      record {
        left = left;
        held = hold-IsMine kb (begin w id (some kb) sys.store).0 sys.held mine h.held;
      }
  Step-IsStepped kb h (finishes s w d before after fresh) =
      let (mine, rest) =
        All-without IsMine (record { knowledge_base_id = kb; document = d }) before after h.held in
      record { left = (Respects-finish owner kb w fresh d mine s h.store).0; held = rest }
  Step-IsStepped kb h (abandons s d before after) = record {
    left = IsLeft-refl owner kb h.store;
    held =
        (All-without IsMine (record { knowledge_base_id = kb; document = d }) before after
          h.held).1;
  }

  -- Whatever commands, phases of jobs and deletions of knowledge bases run, in whatever order and in whatever frames:
  -- documents, chunks and jobs agree with the owner of their identifiers, a worker holds a document of the frame of its
  -- job, and the document of every chunk is there, in the knowledge base of the chunk. This takes it
  -- that an identifier is generated for one knowledge base only.
  pub Trace-IsSound : {P : ℕ → Type 0} {s t : System} → IsSound s → Trace P s t → IsSound t
  Trace-IsSound h start = h
  Trace-IsSound h (next trace kb p step) =
      let stepped = Step-IsStepped kb (Trace-IsSound h trace) step in
      record { store = stepped.left.consistent; held = stepped.held }

  IsLeft-IsUntouched :
      (kb frame : ℕ) (s t : Store) → frame ≢ kb → IsLeft owner frame s t → IsUntouched kb s t
  IsLeft-IsUntouched kb frame s t ne h =
      let own_document : Document → Bool = λ d. d.knowledge_base_id == kb in
      let own_chunk : Chunk → Bool = λ c. c.knowledge_base_id == kb in
      let behind_documents : (ds : List Document)
          → filter own_document (other_documents frame ds) ≡ filter own_document ds =
        λ ds.
          filter-filter own_document (λ d. not (d.knowledge_base_id == frame)) ds
            (λ d e. ground (arith, ne)) in
      let behind_chunks : (cs : List Chunk)
          → filter own_chunk (other_chunks frame cs) ≡ filter own_chunk cs =
        λ cs.
          filter-filter own_chunk (λ c. not (c.knowledge_base_id == frame)) cs
            (λ c e. ground (arith, ne)) in
      record {
        documents =
            sym (behind_documents t.documents)
            ∙ ap (filter own_document) h.documents
            ∙ behind_documents s.documents;
        chunks =
            sym (behind_chunks t.chunks) ∙ ap (filter own_chunk) h.chunks ∙ behind_chunks s.chunks;
      }

  -- While other knowledge bases run what they will, in whatever order, the documents and the chunks of a knowledge base
  -- stay as they are.
  pub Trace-IsUntouched :
      (kb : ℕ) {s t : System}
      → IsSound s
      → Trace (λ frame. frame ≢ kb) s t
      → IsUntouched kb s.store t.store
  Trace-IsUntouched kb h start = record { documents = refl; chunks = refl }
  Trace-IsUntouched kb h (next {t = t} {u = u} trace frame ne step) =
      let before = Trace-IsUntouched kb h trace in
      let stepped = Step-IsStepped frame (Trace-IsSound h trace) step in
      let after = IsLeft-IsUntouched kb frame t.store u.store ne stepped.left in
      record {
        documents = after.documents ∙ before.documents;
        chunks = after.chunks ∙ before.chunks;
      }
