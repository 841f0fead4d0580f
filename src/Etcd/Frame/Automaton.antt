-- ===== src/Etcd/Frame/Automaton.antt =====
-- The loop of libcurl_callback_on_watch_write against a machine that reads one byte at a time.
use mathlib.Core.List.{append_assoc, append-nil}
use libatapp.Prelude.{
  ℕ, zero, suc, ◌≡◌, refl, ◌∙◌, ◌<◌, false, List, [], ◌∷◌, ◌++◌, arith, ◌==◌, ◌||◌, inl, inr,
  Bool-cases, length, if◌then◌else◌,
}
use libatapp.Etcd.Frame.{
  Stream, Fed, Scan, whole, open_at, is_open, skip_noise, skipped, next_depth, scan, prepend,
}

-- a byte at depth `suc d`, or the first byte of a document
abbrev pub take_byte : Stream → ℕ → ℕ → Fed
take_byte s c zero = (record { written = []; brackets = 0 }, (s.written ++ c ∷ []) ∷ [])
take_byte s c (suc depth) = (record { written = s.written ++ c ∷ []; brackets = suc depth }, [])

abbrev at_depth : ℕ → Stream → ℕ → Fed
at_depth zero s c = if c == 0 || is_open c then take_byte s c (next_depth 0 c) else (s, [])
at_depth (suc depth) s c = take_byte s c (next_depth (suc depth) c)

-- The byte machine: between documents it drops noise, within one it keeps each byte, and it gives
-- the document out when its brackets are closed.
unfoldable pub read_byte : Stream → ℕ → Fed
read_byte s c = at_depth s.brackets s c

unfoldable pub read : Stream → List ℕ → Fed
unfolding read_byte
read s [] = (s, [])
read s (c ∷ cs) =
    let (s', docs) = read_byte s c in let (s'', docs') = read s' cs in (s'', docs ++ docs')

-- what the rest of the input gives once a scan of it from within a document is known
abbrev pub finish : List ℕ → List ℕ → Scan → Fed
finish w l (whole bytes rest) =
    let (s, docs) = read (record { written = []; brackets = 0 }) rest in (s, (w ++ bytes) ∷ docs)
finish w l (open_at depth) = (record { written = w ++ l; brackets = depth }, [])

finish-prepend :
    (w l : List ℕ) (c : ℕ) (r : Scan) → finish (w ++ c ∷ []) l r ≡ finish w (c ∷ l) (prepend c r)
finish-prepend w l c (whole bytes rest) = rw (append_assoc w (c ∷ []) bytes)
finish-prepend w l c (open_at depth) = rw (append_assoc w (c ∷ []) l)

abbrev pub followed_by : Fed → List ℕ → Fed
unfolding read
followed_by (s, docs) cs = let (s', docs') = read s cs in (s', docs ++ docs')

abbrev Scans : List ℕ → Type 0
Scans cs =
    (w : List ℕ) (d : ℕ)
    → read (record { written = w; brackets = suc d }) cs ≡ finish w cs (scan (suc d) cs)

abbrev one_more : ℕ → ℕ → List ℕ → Scan
one_more c n cs = let later = prepend c (scan n cs) in if n == 0 then whole (c ∷ []) cs else later

suc-ne-zero : (m : ℕ) → (suc m == 0) ≡ false
suc-ne-zero m = ground arith

read-scan_byte :
    (cs : List ℕ)
    → Scans cs
    → (w : List ℕ) (c b n : ℕ)
    → followed_by (take_byte (record { written = w; brackets = b }) c n) cs
      ≡ finish w (c ∷ cs) (one_more c n cs)
unfolding read
read-scan_byte cs ih w c b zero = refl
read-scan_byte cs ih w c b (suc m) =
    rw (suc-ne-zero m) (ih (w ++ c ∷ []) m ∙ finish-prepend w cs c (scan (suc m) cs))

read-scan : (cs : List ℕ) → Scans cs
unfolding read scan
read-scan [] w d = rw append-nil
read-scan (c ∷ cs) w d = read-scan_byte cs (read-scan cs) w c (suc d) (next_depth (suc d) c)

-- between documents: the noise is dropped, and what is left is scanned
read-skip :
    (w cs : List ℕ)
    → read (record { written = w; brackets = 0 }) cs
      ≡ finish w (skip_noise cs) (scan 0 (skip_noise cs))
unfolding read scan skip_noise
read-skip w [] = rw append-nil
read-skip w (c ∷ cs) = elim (Bool-cases (c == 0 || is_open c)) [
  | inl hit ↦ rw hit (read-scan_byte cs (read-scan cs) w c 0 (next_depth 0 c))
  | inr miss ↦ rw miss (read-skip w cs)
]

pub read-scan_any :
    (s : Stream) (cs : List ℕ)
    → read s cs ≡ finish s.written (skipped s.brackets cs) (scan s.brackets (skipped s.brackets cs))
unfolding skipped skip_noise
read-scan_any s cs = by_depth s.brackets
  where
    by_depth :
        (d : ℕ)
        → read (record { written = s.written; brackets = d }) cs
          ≡ finish s.written (skipped d cs) (scan d (skipped d cs))
    by_depth zero = read-skip s.written cs
    by_depth (suc d) = read-scan cs s.written d

pub length-scan :
    (d : ℕ) (cs bytes rest : List ℕ) → scan d cs ≡ whole bytes rest → length rest < length cs
unfolding scan
length-scan d [] bytes rest h = cc
length-scan d (c ∷ cs) bytes rest h =
    prepend-length (next_depth d c) (scan (next_depth d c) cs) refl
      (length-scan (next_depth d c) cs) h
  where
    prepend-length :
        (n : ℕ) (r : Scan)
        → scan n cs ≡ r
        → ((b t : List ℕ) → scan n cs ≡ whole b t → length t < length cs)
        → (let later = prepend c r in if n == 0 then whole (c ∷ []) cs else later)
          ≡ whole bytes rest
        → length rest < length (c ∷ cs)
    prepend-length n (whole b t) e ih h' = ground (arith, ih b t e)
    prepend-length n (open_at k) e ih h' = ground arith
