-- ===== src/Etcd/Frame/Documents.antt =====
-- What a peer that sends documents, with other bytes between them, gets through
-- libcurl_callback_on_watch_write.
use mathlib.Core.List.{append_assoc}
use libatapp.Prelude.{
  ℕ, zero, suc, ◌≡◌, refl, ◌∙◌, ap, some, List, [], ◌∷◌, ◌++◌, Bool, true, false, ◌||◌, ◌==◌, map,
  All, arith,
}
use libatapp.Etcd.Frame.{Stream, Fed, is_open, next_depth}
use libatapp.Etcd.Frame.Automaton.{read, take_byte, followed_by}
use libatapp.Etcd.Frame.Chunks.{receive, receive-read, joined}

-- a document: from an opening bracket to the byte that closes it, and not earlier
unfoldable pub closes : ℕ → List ℕ → Bool
unfolding next_depth
closes zero [] = true
closes zero (c ∷ cs) = false
closes (suc d) [] = false
closes (suc d) (c ∷ cs) = closes (next_depth (suc d) c) cs

unfoldable pub IsDocument : List ℕ → Type 0
unfolding next_depth closes
IsDocument [] = ⊥
IsDocument (c ∷ cs) = (is_open c ≡ true) × (closes (next_depth 0 c) cs ≡ true)

-- bytes that may stand between documents
abbrev pub IsNoise : List ℕ → Type 0
IsNoise = All (λ c. (c == 0 || is_open c) ≡ false)

abbrev pub Message : Type 0
Message = List ℕ × List ℕ

abbrev pub wire : List Message → List ℕ
wire [] = []
wire ((noise, doc) ∷ more) = noise ++ (doc ++ wire more)

read-noise :
    (w noise rest : List ℕ)
    → IsNoise noise
    → read (record { written = w; brackets = 0 }) (noise ++ rest)
      ≡ read (record { written = w; brackets = 0 }) rest
unfolding read
read-noise w [] rest h = refl
read-noise w (c ∷ noise) rest h = rw h.0 (read-noise w noise rest h.1)

abbrev give : List ℕ → Fed → Fed
give doc (s, docs) = (s, doc ∷ docs)

read-document :
    (w cs rest : List ℕ) (c b n : ℕ)
    → closes n cs ≡ true
    → followed_by (take_byte (record { written = w; brackets = b }) c n) (cs ++ rest)
      ≡ give (w ++ c ∷ cs) (read (record { written = []; brackets = 0 }) rest)
unfolding read next_depth closes IsDocument
read-document w [] rest c b zero h = refl
read-document w (x ∷ cs) rest c b zero h = cc
read-document w [] rest c b (suc d) h = cc
read-document w (x ∷ cs) rest c b (suc d) h =
    read-document (w ++ c ∷ []) cs rest x (suc d) (next_depth (suc d) x) h
    ∙ ap (λ l. give l (read (record { written = []; brackets = 0 }) rest))
        (append_assoc w (c ∷ []) (x ∷ cs))

abbrev pub IsSent : List Message → Type 0
IsSent = All (λ m. IsNoise m.0 × IsDocument m.1)

abbrev pub docs_of : List Message → List (List ℕ)
docs_of = map (λ m. m.1)

abbrev pub fresh : Stream
fresh = record { written = []; brackets = 0 }

or_true : (a b : Bool) → b ≡ true → (a || b) ≡ true
or_true a b h = ground arith

opening :
    (doc rest : List ℕ) → IsDocument doc → read fresh (doc ++ rest) ≡ give doc (read fresh rest)
unfolding read next_depth closes IsDocument
opening [] rest h = absurd h
opening (c ∷ cs) rest h =
    rw (or_true (c == 0) (is_open c) h.0) (read-document [] cs rest c 0 (next_depth 0 c) h.1)

read-wire : (ms : List Message) → IsSent ms → read fresh (wire ms) ≡ (fresh, docs_of ms)
unfolding read
read-wire [] h = refl
read-wire ((noise, doc) ∷ more) h =
    read-noise [] noise (doc ++ wire more) h.0.0
    ∙ opening doc (wire more) h.0.1
    ∙ ap (give doc) (read-wire more h.1)

-- Documents that a peer sends, each after bytes that are no opening bracket and not zero, come out
-- as they are and in order, whatever chunks carry them, and nothing is kept back.
pub receive-wire :
    (chunks : List (List ℕ)) (ms : List Message)
    → IsSent ms
    → joined chunks ≡ wire ms
    → receive fresh chunks ≡ some (fresh, docs_of ms)
receive-wire chunks ms h e =
    receive-read fresh chunks ∙ ap (λ l. some (read fresh l)) e ∙ ap some (read-wire ms h)
