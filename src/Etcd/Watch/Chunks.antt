-- ===== src/Etcd/Watch/Chunks.antt =====
-- A watcher over the chunks of a stream: what its handler is told does not depend on the cuts.
use native.Mathlib.Nat.{le_refl}
use libatapp.Prelude.{
  ℕ, ◌≡◌, refl, sym, ap, ◌∙◌, Bool, true, false, ◌&&◌, Option, none, some, List, [], ◌∷◌, ◌++◌, ltb,
  length, if◌then◌else◌,
}
use libatapp.Etcd.Frame.{Stream}
use libatapp.Etcd.Frame.Automaton.{read}
use libatapp.Etcd.Frame.Chunks.{on_watch_write-read, read-append, joined}
use libatapp.Etcd.Watch.{
  World, Message, tell, save_revision, header_revision, on_document, on_documents, on_fed, on_chunk,
}

module _ {ℓ} {E : Type ℓ} (decode : List ℕ → Option (Message E)) where
  abbrev pub next_chunks : (World E → Option (World E)) → Option (World E) → Option (World E)
  next_chunks next none = none
  next_chunks next (some w) = next w

  -- the callback is called for one chunk after the other
  unfoldable pub on_chunks : List (List ℕ) → World E → Option (World E)
  unfolding on_chunk
  on_chunks [] w = some w
  on_chunks (chunk ∷ chunks) w = next_chunks (on_chunks chunks) (on_chunk decode chunk w)

  abbrev pub keeping : Stream → World E → World E
  keeping s w = record w { self = record (w.self) { data_stream = s } }

  if-keeping :
      (s : Stream) (b : Bool) (v w : World E)
      → (if b then keeping s v else keeping s w) ≡ keeping s (if b then v else w)
  if-keeping s true v w = refl
  if-keeping s false v w = refl

  document-keeping :
      (s : Stream) (m : Option (Message E)) (w : World E)
      → on_document m (keeping s w) ≡ keeping s (on_document m w)
  unfolding on_document
  document-keeping s none w = refl
  document-keeping s (some m) w =
      let last = save_revision m.header w.self.last_revision in
      let told =
        tell (header_revision m.header) (record (m.response) { snapshot = false })
          (record w { self = record (w.self) { last_revision = last } }) in
      if-keeping s (m.response.canceled && ltb w.self.last_revision m.response.compact_revision)
        (record told { self = record (told.self) { last_revision = 0 } }) told

  documents-keeping :
      (s : Stream) (ds : List (List ℕ)) (w : World E)
      → on_documents decode ds (keeping s w) ≡ keeping s (on_documents decode ds w)
  unfolding on_documents
  documents-keeping s [] w = refl
  documents-keeping s (d ∷ ds) w =
      ap (on_documents decode ds) (document-keeping s (decode d) w)
      ∙ documents-keeping s ds (on_document (decode d) w)

  documents-append :
      (a b : List (List ℕ)) (w : World E)
      → on_documents decode (a ++ b) w ≡ on_documents decode b (on_documents decode a w)
  unfolding on_documents
  documents-append [] b w = refl
  documents-append (d ∷ a) b w = documents-append a b (on_document (decode d) w)

  -- the world after what the byte machine gives
  abbrev pub after : Stream × List (List ℕ) → World E → World E
  unfolding on_documents
  after (s, ds) w = keeping s (on_documents decode ds w)

  on_chunk-read :
      (chunk : List ℕ) (w : World E)
      → on_chunk decode chunk w ≡ some (after (read w.self.data_stream chunk) w)
  unfolding on_chunk on_fed
  on_chunk-read chunk w =
      let fed = read w.self.data_stream chunk in
      ap (λ o. on_fed decode o w)
        (on_watch_write-read (length chunk) w.self.data_stream chunk (le_refl (length chunk)))
      ∙ ap some (documents-keeping fed.0 fed.1 w)

  -- The callback ends on any chunks, and tells the handler, in order, what the documents say that reading
  -- all their bytes one by one gives: neither the calls nor the revision that is saved depend on where the
  -- stream is cut.
  pub on_chunks-read :
      (chunks : List (List ℕ)) (w : World E)
      → on_chunks chunks w ≡ some (after (read w.self.data_stream (joined chunks)) w)
  unfolding on_chunks read after
  on_chunks-read [] w = refl
  on_chunks-read (chunk ∷ chunks) w =
      let fed = read w.self.data_stream chunk in
      let later = read fed.0 (joined chunks) in
      let w' = on_documents decode fed.1 w in
      ap (next_chunks (on_chunks chunks)) (on_chunk-read chunk w)
      ∙ on_chunks-read chunks (keeping fed.0 w')
      ∙ ap (λ v. some (keeping later.0 v))
          (documents-keeping fed.0 later.1 w'
            ∙ ap (keeping fed.0) (sym (documents-append fed.1 later.1 w)))
      ∙ ap (λ f. some (after f w)) (sym (read-append w.self.data_stream chunk (joined chunks)))
