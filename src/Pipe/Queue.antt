-- ===== src/Pipe/Queue.antt =====
-- What a pipe of src/kernel/fs/pipe/PipeFS.cpp promises: a queue of bytes with a bound, from which the
-- oldest bytes give way to new ones, and of which as many bytes are taken as are asked for, or none.
use git_os.Base.{
  ℕ, ◌+◌, ◌-◌, ltb, if◌then◌else◌, Option, none, some, List, [], ◌∷◌, ◌++◌, take, drop, length,
}

-- A call of a client, and what it is told.
pub data Op : Type 0 where
  put_bytes : List ℕ → Op
  get_bytes : ℕ → Op

unfoldable pub push : ℕ → List ℕ → List ℕ → List ℕ
push bound queue bytes = drop (length queue + length bytes - bound) (queue ++ bytes)

unfoldable pub pop : List ℕ → ℕ → Option (List ℕ) × List ℕ
pop queue size =
    if ltb (length queue) size then (none, queue) else (some (take size queue), drop size queue)

-- The results of the reads, in order.
unfoldable pub run : ℕ → List ℕ → List Op → List (Option (List ℕ))
run bound queue [] = []
run bound queue (put_bytes bytes ∷ ops) = run bound (push bound queue bytes) ops
run bound queue (get_bytes size ∷ ops) =
    let (res, queue') = pop queue size in res ∷ run bound queue' ops
