-- ===== src/Processor/Outcomes.antt =====
-- What a call of `ProcessFile` ends in.
use fileprocessor.Base.{
  ℕ, ◌≡◌, refl, ◌⊎◌, inl, inr, Bool, true, false, ◌&&◌, Option, none, some, List, [], if_ind, Bytes,
  result-cases, try_then, call-cases,
}
use fileprocessor.Loader.{is_image_file, is_video_file, can_chunk_for_rag}
use fileprocessor.Loader.Load.{FileDocument}
use fileprocessor.Processor.{Processor, Host}
use fileprocessor.Processor.Run.{
  Request, Response, ProcessError, Job, Result, or_base_name, file_record, document_record, respond,
  respond_with, respond_later, dispatch, save_loaded, load_request, process_file,
}

-- The arguments that a goroutine is started with.
abbrev pub job_arguments : Job → Bytes × (Bytes × (Bytes × (Bytes × Bool)))
job_arguments (Job.image_job path name document_id file_id rag) =
    (path, (name, (document_id, (file_id, rag))))
job_arguments (Job.video_job path name document_id file_id rag) =
    (path, (name, (document_id, (file_id, rag))))

-- The answer to a request whose file and document have these ids: either it says that work is under
-- way, and a goroutine with the arguments of the request has been started and nothing else was done
-- to the state, or it does not, and none has been started.
pub record Answers {W E : Type 0} (req : Request) (file_type file_id document_id : Bytes) (w : W)
    (result : Result W E) : Type 0 where
  pub response : Response
  pub job : Option Job
  pub last : W
  pub answered : result ≡ (inr (response, job), last)
  pub has_file_id : response.file_id ≡ file_id
  pub has_document_id : response.document_id ≡ document_id
  pub has_type : response.detected_file_type ≡ file_type
  pub work :
      ((response.processing ≡ true)
        × ((last ≡ w)
            × ((j : Job) × (job ≡ some j)
                × (job_arguments j ≡ (
                  req.file_path,
                  (or_base_name req, (document_id, (file_id, req.enable_rag))),
                )))))
      ⊎ ((response.processing ≡ false) × (job ≡ none))

module _ {W E : Type 0} (req : Request) (file_type file_id document_id : Bytes) where
  answer_with :
      (w : W) (found : List Bytes × W)
      → Answers {W = W} {E = E} req file_type file_id document_id w
          (respond_with file_type file_id document_id found)
  unfolding respond_with respond
  answer_with w (ids, last) = record {
    response = respond file_type file_id document_id ids false;
    job = none;
    last = last;
    answered = refl;
    has_file_id = refl;
    has_document_id = refl;
    has_type = refl;
    work = inr (refl, refl);
  }

  answer_later :
      (w : W) (j : Job)
      → job_arguments j
        ≡ (req.file_path, (or_base_name req, (document_id, (file_id, req.enable_rag))))
      → Answers {W = W} {E = E} req file_type file_id document_id w
          (respond_later file_type file_id document_id j w)
  unfolding respond_later respond
  answer_later w j args = record {
    response = respond file_type file_id document_id [] true;
    job = some j;
    last = w;
    answered = refl;
    has_file_id = refl;
    has_document_id = refl;
    has_type = refl;
    work = inl (refl, (refl, (j, refl, args)));
  }

-- How a call ends: nothing is stored, or the store refuses the file, or it refuses the document, or
-- both are stored.
pub data Ending {W E V T : Type 0} (host : Host W E T) (p : Processor W E V) (req : Request) (w : W)
    (result : Result W E) : Type 0 where
  not_loaded :
      (err : ProcessError E)
      → load_request host req w ≡ inl err
      → result ≡ (inl err, w)
      → Ending host p req w result
  file_refused :
      (doc : FileDocument T) (size : ℕ) (err : E) (w1 : W)
      → load_request host req w ≡ inr (doc, size)
      → p.file_store.create_file (file_record host req doc.file_type (or_base_name req) size w) w
        ≡ (inl err, w1)
      → result ≡ (inl (ProcessError.save_file_failed err), w1)
      → Ending host p req w result
  document_refused :
      (doc : FileDocument T) (size : ℕ) (file_id : Bytes) (w1 : W) (err : E) (w2 : W)
      → load_request host req w ≡ inr (doc, size)
      → p.file_store.create_file (file_record host req doc.file_type (or_base_name req) size w) w
        ≡ (inr file_id, w1)
      → p.file_store.create_document (document_record host doc file_id (or_base_name req)) w1
        ≡ (inl err, w2)
      → result ≡ (inl (ProcessError.save_document_failed err), w2)
      → Ending host p req w result
  both_stored :
      (doc : FileDocument T) (size : ℕ) (file_id : Bytes) (w1 : W) (document_id : Bytes) (w2 : W)
      → load_request host req w ≡ inr (doc, size)
      → p.file_store.create_file (file_record host req doc.file_type (or_base_name req) size w) w
        ≡ (inr file_id, w1)
      → p.file_store.create_document (document_record host doc file_id (or_base_name req)) w1
        ≡ (inr document_id, w2)
      → Answers req doc.file_type file_id document_id w2 result
      → Ending host p req w result

module _ {W E V T : Type 0} (host : Host W E T) (p : Processor W E V) where
  dispatch-Answers :
      (req : Request) (doc : FileDocument T) (file_id document_id : Bytes) (w : W)
      → Answers req doc.file_type file_id document_id w
          (dispatch host p req doc (or_base_name req) file_id document_id w)
  unfolding dispatch
  dispatch-Answers req doc file_id document_id w =
      let Ok : Result W E → Type 0 = Answers req doc.file_type file_id document_id w in
      if_ind Ok (is_image_file doc.file_type)
        (λ image. answer_later req doc.file_type file_id document_id w _ refl)
        (λ other.
          if_ind Ok (is_video_file doc.file_type)
            (λ video. answer_later req doc.file_type file_id document_id w _ refl)
            (λ text.
              if_ind Ok (req.enable_rag && can_chunk_for_rag doc.file_type)
                (λ rag. answer_with req doc.file_type file_id document_id w _)
                (λ no_rag. answer_with req doc.file_type file_id document_id w _)))

  process_loaded-Ending :
      (req : Request) (w : W) (doc : FileDocument T) (size : ℕ)
      → load_request host req w ≡ inr (doc, size)
      → Ending host p req w (save_loaded host p req (or_base_name req) w doc size)
  unfolding save_loaded try_then
  process_loaded-Ending req w doc size loaded =
      let name = or_base_name req in
      elim (call-cases
        (p.file_store.create_file (file_record host req doc.file_type name size w) w)) [
          | inl (err, w1, refused) ↦
              file_refused doc size err w1 loaded refused (rw (refused, try_then) refl)
          | inr (file_id, w1, made) ↦
              let stored =
                p.file_store.create_document (document_record host doc file_id name) w1 in
              elim (call-cases stored) [
                | inl (err, w2, refused) ↦
                    document_refused doc size file_id w1 err w2 loaded made refused
                      (rw (made, try_then, refused) refl)
                | inr (document_id, w2, kept) ↦
                    both_stored doc size file_id w1 document_id w2 loaded made kept
                      (rw (made, try_then, kept) (dispatch-Answers req doc file_id document_id w2))
              ]
        ]

  -- Every call ends in one of four ways. The file cannot be loaded: then the call fails and the
  -- state is as it was. The store refuses the record of the file, or that of its document: then the
  -- call fails with the store's error, in the state the store left. Or both are stored: then the
  -- call does not fail, whatever the pipeline of the chunks gives, and the response has the ids
  -- that the store gave and the type of the document; it says that work is under way exactly if a
  -- goroutine has been started, with the arguments of the request and these ids.
  pub process_file-Ending :
      (req : Request) (w : W) → Ending host p req w (process_file host p req w)
  unfolding process_file
  process_file-Ending req w = elim (result-cases (load_request host req w)) [
    | inl (err, failed) ↦ not_loaded err failed (rw failed (unfold try_then in refl))
    | inr ((doc, size), loaded) ↦
        rw loaded (unfold try_then in process_loaded-Ending req w doc size loaded)
  ]
