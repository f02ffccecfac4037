-- ===== src/ReadEvent/Body.antt =====
-- src/read_event.c, `write_to_stream`: what arrives, and what the stream gets.
use lidas.Base.{
  ℕ, zero, suc, ◌+◌, ◌-◌, ◌%◌, ◌<◌, ◌≡◌, refl, ap, ◌∙◌, true, false, none, List, [], ◌∷◌, ◌++◌,
  arith, leb, length, replicate, ok, Status, success, length-append, append_assoc, append-nil,
  fault, le→leb, Bool,
}
use lidas.ReadEvent.{
  word, ReadResult, took, failed, drain, collect, file_name, fname_room, write_to_stream,
}
use lidas.Text.Literals.{codes}
use lidas.Text.Numerals.Decimal.{decimal}

-- what one call of `read` takes: at least one byte
abbrev pub Chunk : Type 0
Chunk = ℕ × List ℕ

abbrev pub chunk_bytes : List Chunk → List ℕ
chunk_bytes [] = []
chunk_bytes ((b, bs) ∷ cs) = (b ∷ bs) ++ chunk_bytes cs

-- the calls of `read` that find the chunks of one arrival, and then nothing
abbrev pub reads_of : List Chunk → List ReadResult → List ReadResult
reads_of [] later = took [] ∷ later
reads_of ((b, bs) ∷ cs) later = took (b ∷ bs) ∷ reads_of cs later

abbrev pub all_reads : List (List Chunk) → List ReadResult → List ReadResult
all_reads [] later = later
all_reads (a ∷ arrivals) later = reads_of a (all_reads arrivals later)

abbrev pub all_bytes : List (List Chunk) → List ℕ
all_bytes [] = []
all_bytes (a ∷ arrivals) = chunk_bytes a ++ all_bytes arrivals

drain-step :
    (file chunk : List ℕ)
    → length file + length chunk < word
    → (length file + length chunk) % word ≡ length (file ++ chunk)
drain-step file chunk fits = omega (arith, length-append file chunk)

drain-reads_of :
    (cs : List Chunk) (later : List ReadResult) (file : List ℕ)
    → length (file ++ chunk_bytes cs) < word
    → drain true (reads_of cs later) (length file) file
      ≡ ok (length (file ++ chunk_bytes cs), file ++ chunk_bytes cs, later)
unfolding drain
drain-reads_of [] later file fits = rw (append-nil file) refl
drain-reads_of ((b, bs) ∷ cs) later file fits =
    let assoc : (file ++ (b ∷ bs)) ++ chunk_bytes cs ≡ file ++ chunk_bytes ((b, bs) ∷ cs) =
      append_assoc file (b ∷ bs) (chunk_bytes cs) in
    let fits' : length ((file ++ (b ∷ bs)) ++ chunk_bytes cs) < word = rw assoc fits in
    let step : (length file + length (b ∷ bs)) % word ≡ length (file ++ (b ∷ bs)) =
      drain-step file (b ∷ bs) (
        omega (
          arith,
          fits',
          length-append file (b ∷ bs),
          length-append (file ++ (b ∷ bs)) (chunk_bytes cs),
        )) in
    rw (step, drain-reads_of cs later (file ++ (b ∷ bs)) fits', assoc) refl

-- An arrival that leaves the file short of `size`: the loop waits and goes on.
collect-short :
    (n : ℕ) (a : List Chunk) (later : List ReadResult) (waits : List Status) (size : ℕ)
    (file : List ℕ)
    → length (file ++ chunk_bytes a) < size
    → size < word
    → collect (suc n) true (success ∷ waits) (reads_of a later) size (length file) file
      ≡ collect n true waits later size (length (file ++ chunk_bytes a)) (file ++ chunk_bytes a)
unfolding collect
collect-short n a later waits size file short bound =
    let test : leb size (length (file ++ chunk_bytes a)) ≡ false = ground (arith, short) in
    rw (drain-reads_of a later file (omega arith), test) refl

-- Arrivals that leave the file short of `size`, before anything else that is read.
collect-all_reads :
    (arrivals : List (List Chunk)) (m n : ℕ) (later : List ReadResult) (waits : List Status)
    (size : ℕ) (file : List ℕ)
    → m ≡ length arrivals + n
    → length (file ++ all_bytes arrivals) < size
    → size < word
    → collect m true
        (replicate (length arrivals) success ++ waits)
        (all_reads arrivals later)
        size
        (length file)
        file
      ≡ collect n true waits later size
          (length (file ++ all_bytes arrivals))
          (file ++ all_bytes arrivals)
collect-all_reads [] m n later waits size file e short bound =
    let same : m ≡ n = omega arith in rw (append-nil file, same) refl
collect-all_reads (a ∷ arrivals) zero n later waits size file e short bound = absurd (omega arith)
collect-all_reads (a ∷ arrivals) (suc m) n later waits size file e short bound =
    let assoc = append_assoc file (chunk_bytes a) (all_bytes arrivals) in
    let short' : length ((file ++ chunk_bytes a) ++ all_bytes arrivals) < size = rw assoc short in
    let first : length (file ++ chunk_bytes a) < size =
      omega (arith, short', length-append (file ++ chunk_bytes a) (all_bytes arrivals)) in
    collect-short m a (all_reads arrivals later) (replicate (length arrivals) success ++ waits) size
      file first bound
    ∙ (collect-all_reads arrivals m n later waits size (file ++ chunk_bytes a) (omega arith) short'
          bound
        ∙ ap (λ whole. collect n true waits later size (length whole) whole) assoc)

-- After ten pieces that leave the file short of `size`, which is below 2 ^ 64, they give up, whatever
-- could be read next, although every wait succeeded.
pub collect-gives_up :
    (early : List (List Chunk)) (later : List ReadResult) (waits : List Status) (size : ℕ)
    → length early ≡ 10
    → length (all_bytes early) < size
    → size < word
    → collect 10 true (replicate (length early) success ++ waits) (all_reads early later) size 0 []
      ≡ ok none
unfolding collect
collect-gives_up early later waits size ten short bound =
    collect-all_reads early 10 0 later waits size [] (omega arith) short bound

-- the calls of `read` that find the chunks, and one that returns -1
abbrev pub error_after : List Chunk → List ReadResult → List ReadResult
error_after [] later = failed ∷ later
error_after ((b, bs) ∷ cs) later = took (b ∷ bs) ∷ error_after cs later

drain-error :
    (cs : List Chunk) (later : List ReadResult) (sum : ℕ) (file : List ℕ)
    → drain true (error_after cs later) sum file ≡ fault
unfolding drain
drain-error [] later sum file = refl
drain-error ((b, bs) ∷ cs) later sum file =
    drain-error cs later ((sum + length (b ∷ bs)) % word) (file ++ (b ∷ bs))

collect-error :
    (n : ℕ) (cs : List Chunk) (later : List ReadResult) (waits : List Status) (size sum : ℕ)
    (file : List ℕ)
    → collect (suc n) true waits (error_after cs later) size sum file ≡ fault
unfolding collect
collect-error n cs later waits size sum file = rw (drain-error cs later sum file) refl

-- If the first call of `read` that does not take a byte fails, as it does on a socket that does not
-- block, `fwrite` reads behind the buffer.
pub collect-faults :
    (early : List (List Chunk)) (cs : List Chunk) (later : List ReadResult) (waits : List Status)
    (size : ℕ)
    → length early < 10
    → length (all_bytes early) < size
    → size < word
    → collect 10 true
        (replicate (length early) success ++ waits)
        (all_reads early (error_after cs later))
        size
        0
        []
      ≡ fault
collect-faults early cs later waits size few short bound =
    collect-all_reads early 10 (suc (9 - length early)) (error_after cs later) waits size []
      (omega arith) short bound
    ∙ collect-error (9 - length early) cs later waits size (length (all_bytes early))
        (all_bytes early)

-- Before that, `write_to_stream` always makes an access outside its array: the name of the file does
-- not fit into `fname`, whatever the descriptor is.
pub write_to_stream-overflows :
    (fd : ℕ) (opened : Bool) (waits : List Status) (reads : List ReadResult) (size : ℕ)
    → write_to_stream fd opened waits reads size ≡ fault
unfolding write_to_stream file_name
write_to_stream-overflows fd opened waits reads size =
    let long : leb fname_room (length (file_name fd)) ≡ true =
      le→leb _ _ (
        omega
          (arith, length-append (codes "/var/lida/tmp/Buffer_") (decimal fd ++ codes ".tmp"))) in
    rw long refl
