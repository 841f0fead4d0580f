-- ===== src/Etcd/Frame.antt =====
-- How etcd_watcher cuts the HTTP stream of a watch into JSON documents:
-- etcd_watcher::libcurl_callback_on_watch_write in src/atframe/etcdcli/etcd_watcher.cpp.
-- Bytes are numbers. The bracket depth is an int64_t in the source; it is compared with 0 only, and
-- a step down from 0 ends the document whether it gives 0 or -1, so a natural number serves.
pub mod Automaton
pub mod Chunks
pub mod Documents
use libatapp.Prelude.{
  ℕ, zero, suc, ◌+◌, ◌-◌, Bool, ◌||◌, Option, none, some, List, [], ◌∷◌, ◌++◌, ◌==◌, if◌then◌else◌,
}

-- rpc_data_stream_ and rpc_data_brackets_
pub record Stream : Type 0 where
  pub written : List ℕ
  pub brackets : ℕ

abbrev pub is_open : ℕ → Bool
is_open c = c == b'{' || c == b'['

abbrev pub is_close : ℕ → Bool
is_close c = c == b'}' || c == b']'

-- the bytes before a document are dropped, up to an opening bracket or a zero byte
unfoldable pub skip_noise : List ℕ → List ℕ
skip_noise [] = []
skip_noise (c ∷ cs) = if c == 0 || is_open c then c ∷ cs else skip_noise cs

unfoldable pub next_depth : ℕ → ℕ → ℕ
next_depth depth c =
    let opened = if is_open c then depth + 1 else depth in if is_close c then opened - 1 else opened

-- `whole` has the bytes up to the one that brings the depth to 0, and the bytes that are left
pub data Scan : Type 0 where
  whole : List ℕ → List ℕ → Scan
  open_at : ℕ → Scan

abbrev pub prepend : ℕ → Scan → Scan
prepend c (whole bytes rest) = whole (c ∷ bytes) rest
prepend c (open_at depth) = open_at depth

unfoldable pub scan : ℕ → List ℕ → Scan
scan depth [] = open_at depth
scan depth (c ∷ cs) =
    let depth' = next_depth depth c in
    let later = prepend c (scan depth' cs) in if depth' == 0 then whole (c ∷ []) cs else later

-- One chunk: the stream that is kept, and the documents that were completed, in order.
abbrev pub Fed : Type 0
Fed = Stream × List (List ℕ)

abbrev pub emit : List ℕ → Option Fed → Option Fed
emit doc none = none
emit doc (some (s, docs)) = some (s, doc ∷ docs)

abbrev pub skipped : ℕ → List ℕ → List ℕ
unfolding skip_noise
skipped zero inbuf = skip_noise inbuf
skipped (suc depth) inbuf = inbuf

-- one round of the loop, once the scan has stopped; `again` goes on with the bytes that are left
abbrev pub after_scan : Stream → List ℕ → (List ℕ → Option Fed) → Scan → Option Fed
after_scan s inbuf again (whole bytes rest) = emit (s.written ++ bytes) (again rest)
after_scan s inbuf again (open_at depth) =
    some (record { written = s.written ++ inbuf; brackets = depth }, [])

-- `while (inbufsz > 0)`, on fuel; `none` means that the fuel ran out
unfoldable pub on_watch_write : ℕ → Stream → List ℕ → Option Fed
unfolding scan skip_noise next_depth
on_watch_write fuel s [] = some (s, [])
on_watch_write zero s (c ∷ cs) = none
on_watch_write (suc fuel) s (c ∷ cs) =
    let inbuf = skipped s.brackets (c ∷ cs) in
    after_scan s inbuf (on_watch_write fuel (record { written = []; brackets = 0 }))
      (scan s.brackets inbuf)
