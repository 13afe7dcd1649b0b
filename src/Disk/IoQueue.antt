-- ===== src/Disk/IoQueue.antt =====
-- src-tauri/crates/oxidebt-disk/src/io_queue.rs: the order of a batch of writes, and their
-- distribution among the workers. The channels between the queue and the workers are left out.
use rbitt.Prelude.{
  ℕ, ◌%◌, ◌<◌, ◌≡◌, ◌≢◌, sym, ap, ◌∙◌, subst, inl, inr, Bool, true, false, Bool-cases, List, [],
  ◌∷◌, ◌++◌, append_assoc, append-nil, Bytes, ltb, ◌==◌, if◌then◌else◌, length, get_or, set,
  replicate, length-set, length-replicate, get_or-set_self, get_or-set_ne, get_or-replicate, arith,
}
use rbitt.Prelude.Search.{keep}
use rbitt.Prelude.Sort.{sort}

pub data WritePriority : Type 0 where
  high : WritePriority
  normal : WritePriority
  low : WritePriority

unfoldable pub rank : WritePriority → ℕ
rank high = 0
rank normal = 1
rank low = 2

pub record WriteOp : Type 0 where
  pub torrent_hash : Bytes
  pub file_index : ℕ
  pub file_offset : ℕ
  pub bytes : Bytes
  pub priority : WritePriority

-- The order of the keys `(rank, file_index, file_offset)`.
unfoldable pub key_lt : WriteOp → WriteOp → Bool
unfolding rank
key_lt a b =
    if ltb (rank a.priority) (rank b.priority)
    then true
    else if rank a.priority == rank b.priority
    then (if ltb a.file_index b.file_index
        then true
        else if a.file_index == b.file_index
        then ltb a.file_offset b.file_offset
        else false)
    else false

-- The loop that drains the batch. A queue has at least one worker.
unfoldable pub distribute : ℕ → List (List WriteOp) → List WriteOp → List (List WriteOp)
distribute num_workers per_worker [] = per_worker
distribute num_workers per_worker (op ∷ ops) =
    let worker_idx = op.file_index % num_workers in
    distribute num_workers
      (set per_worker worker_idx (get_or per_worker worker_idx [] ++ (op ∷ []))) ops

unfoldable pub dispatch_batch : ℕ → List WriteOp → List (List WriteOp)
unfolding distribute key_lt
dispatch_batch num_workers batch =
    distribute num_workers (replicate num_workers []) (sort key_lt batch)

unfoldable pub offset_lt : WriteOp → WriteOp → Bool
offset_lt a b =
    if ltb a.file_index b.file_index
    then true
    else if a.file_index == b.file_index
    then ltb a.file_offset b.file_offset
    else false

unfoldable pub sort_writes_by_offset : List WriteOp → List WriteOp
unfolding offset_lt
sort_writes_by_offset ops = sort offset_lt ops

abbrev pub goes_to : ℕ → ℕ → WriteOp → Bool
goes_to num_workers w op = op.file_index % num_workers == w

distribute-get_or :
    (n w : ℕ) (per_worker : List (List WriteOp)) (ops : List WriteOp)
    → 0 < n
    → w < n
    → length per_worker ≡ n
    → get_or (distribute n per_worker ops) w [] ≡ get_or per_worker w [] ++ keep (goes_to n w) ops
unfolding distribute keep
distribute-get_or n w per_worker [] pos h size = sym (append-nil (get_or per_worker w []))
distribute-get_or n w per_worker (op ∷ ops) pos h size =
    let idx = op.file_index % n in
    let old = get_or per_worker idx [] in
    let after = set per_worker idx (old ++ (op ∷ [])) in
    let rest =
      distribute-get_or n w after ops pos h (length-set per_worker idx (old ++ (op ∷ [])) ∙ size) in
    elim (Bool-cases (idx == w)) [
      | inl e ↦
          let same : idx ≡ w = ground arith in
          let here : get_or after w [] ≡ get_or per_worker w [] ++ (op ∷ []) =
            subst (λ j. get_or after j [] ≡ get_or per_worker j [] ++ (op ∷ [])) same
              (get_or-set_self per_worker idx (old ++ (op ∷ [])) []
                (omega (arith, h, same, size))) in
          rw e (
            rest
            ∙ ap (λ t. t ++ keep (goes_to n w) ops) here
            ∙ append_assoc (get_or per_worker w []) (op ∷ []) (keep (goes_to n w) ops))
      | inr e ↦
          let other : idx ≢ w = ground arith in
          rw e (
            rest
            ∙ ap (λ t. t ++ keep (goes_to n w) ops)
                (get_or-set_ne per_worker idx w (old ++ (op ∷ [])) [] other))
    ]

-- A worker gets the writes to its files, all of them and no others, in the order of the batch's keys.
pub dispatch_batch-keep :
    (num_workers w : ℕ) (batch : List WriteOp)
    → w < num_workers
    → get_or (dispatch_batch num_workers batch) w []
      ≡ keep (goes_to num_workers w) (sort key_lt batch)
unfolding dispatch_batch
dispatch_batch-keep n w batch h =
    distribute-get_or n w (replicate n []) (sort key_lt batch) (omega arith) h
      (length-replicate n [])
    ∙ ap (λ t. t ++ keep (goes_to n w) (sort key_lt batch)) (get_or-replicate n w [] [] h)
