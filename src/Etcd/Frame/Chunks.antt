-- ===== src/Etcd/Frame/Chunks.antt =====
-- libcurl_callback_on_watch_write on whole streams: it is the byte machine, so the documents do not
-- depend on how the network cuts the stream.
use mathlib.Core.List.{append_assoc}
use native.Mathlib.Nat.{le_refl}
use libatapp.Prelude.{
  ℕ, zero, suc, ◌≤◌, ◌≡◌, refl, sym, ◌∙◌, Option, some, none, List, [], ◌∷◌, ◌++◌, arith, ap,
  length,
}
use libatapp.Etcd.Frame.{
  Stream, Fed, Scan, whole, open_at, skip_noise, skipped, scan, after_scan, on_watch_write,
}
use libatapp.Etcd.Frame.Automaton.{read, read_byte, finish, read-scan_any, length-scan}

skip_noise-le : (cs : List ℕ) → length (skip_noise cs) ≤ length cs
unfolding skip_noise
skip_noise-le [] = omega arith
skip_noise-le (c ∷ cs) = ground (arith, skip_noise-le cs)

skipped-le : (d : ℕ) (cs : List ℕ) → length (skipped d cs) ≤ length cs
unfolding skipped skip_noise
skipped-le zero cs = skip_noise-le cs
skipped-le (suc d) cs = omega arith

after_scan-finish :
    (s : Stream) (inbuf : List ℕ) (again : List ℕ → Option Fed) (r : Scan)
    → ((bytes rest : List ℕ)
        → r ≡ whole bytes rest
        → again rest ≡ some (read (record { written = []; brackets = 0 }) rest))
    → after_scan s inbuf again r ≡ some (finish s.written inbuf r)
after_scan-finish s inbuf again (whole bytes rest) h = rw (h bytes rest refl)
after_scan-finish s inbuf again (open_at depth) h = refl

-- A chunk goes through the loop in at most one round for each of its bytes, and then the loop has
-- given out the documents, and kept the stream, that reading the chunk byte by byte gives.
pub on_watch_write-read :
    (fuel : ℕ) (s : Stream) (inbuf : List ℕ)
    → length inbuf ≤ fuel
    → on_watch_write fuel s inbuf ≡ some (read s inbuf)
unfolding on_watch_write read
on_watch_write-read zero s [] h = refl
on_watch_write-read (suc fuel) s [] h = refl
on_watch_write-read zero s (c ∷ cs) h = absurd (omega arith)
on_watch_write-read (suc fuel) s (c ∷ cs) h =
    after_scan-finish s (skipped s.brackets (c ∷ cs)) _ _
      (λ bytes rest (e : scan s.brackets (skipped s.brackets (c ∷ cs)) ≡ whole bytes rest).
        on_watch_write-read fuel (record { written = []; brackets = 0 }) rest
          (omega (
            arith,
            length-scan s.brackets (skipped s.brackets (c ∷ cs)) bytes rest e,
            skipped-le s.brackets (c ∷ cs),
          )))
    ∙ ap some (sym (read-scan_any s (c ∷ cs)))

pub read-append :
    (s : Stream) (a b : List ℕ)
    → read s (a ++ b)
      ≡ (let (s', docs) = read s a in let (s'', docs') = read s' b in (s'', docs ++ docs'))
unfolding read
read-append s [] b = refl
read-append s (c ∷ a) b =
    let (s', docs) = read_byte s c in
    cc (read-append s' a b, append_assoc docs (read s' a).1 (read (read s' a).0 b).1)

-- what follows a chunk is read from the stream that the chunk left
abbrev pub and_then : Option Fed → (Stream → Option Fed) → Option Fed
and_then none next = none
and_then (some (s, docs)) next = elim (next s) [
  | none ↦ none
  | some (s', docs') ↦ some (s', docs ++ docs')
]

-- the callback is called for one chunk after the other, with fuel for each
unfoldable pub receive : Stream → List (List ℕ) → Option Fed
receive s [] = some (s, [])
receive s (chunk ∷ chunks) =
    and_then (on_watch_write (length chunk) s chunk) (λ s'. receive s' chunks)

abbrev pub joined : List (List ℕ) → List ℕ
joined [] = []
joined (chunk ∷ chunks) = chunk ++ joined chunks

-- Over any chunks the callback ends, and gives what reading their bytes one by one gives.
pub receive-read :
    (s : Stream) (chunks : List (List ℕ)) → receive s chunks ≡ some (read s (joined chunks))
unfolding receive read
receive-read s [] = refl
receive-read s (chunk ∷ chunks) =
    rw (on_watch_write-read (length chunk) s chunk (le_refl (length chunk))) (
      rw (receive-read (read s chunk).0 chunks)
        (ap some (sym (read-append s chunk (joined chunks)))))

-- Two ways to cut the same bytes into chunks give the same documents and keep the same stream.
receive_any_chunks :
    (s : Stream) (xs ys : List (List ℕ)) → joined xs ≡ joined ys → receive s xs ≡ receive s ys
receive_any_chunks s xs ys h =
    receive-read s xs ∙ ap (λ l. some (read s l)) h ∙ sym (receive-read s ys)
