-- ===== src/Call/Metadata/Laws.antt =====
-- Which headers `apply_metadata` adds, and when it refuses.
use mathlib.Core.List.{append_assoc, append-nil}
use pg_grpc.Common.{
  ◌≡◌, ◌↔◌, refl, sym, ap, subst, ◌∙◌, String, Option, none, some, List, [], ◌∷◌, ◌++◌, ok,
  >>=-eq-ok, ok-injective, map_err, map_err-ok,
}
use pg_grpc.Text.{◌⧺◌}
use pg_grpc.Errors.{call}
use pg_grpc.Json.{Numbers, Value, null, bool, number, string, array, object, entries}
use pg_grpc.Call.Metadata.Headers.{
  Lowercase, to_ascii_lowercase-Lowercase, Lowercase-eq, ItemsOf, value_items-ItemsOf, ItemsOf-eq,
  Texts, texts-Texts, Texts-eq, kept, texts,
}
use pg_grpc.Call.Metadata.{
  MetadataCodec, to_ascii_lowercase, MetadataMap, item_text, value_items, append_text, append_items,
  append_entries, apply_metadata,
}

module _ (ns : Numbers) (tonic : MetadataCodec) where
  -- Headers under one key with these texts as their values.
  abbrev pub Written : tonic.MetaKey → List String → MetadataMap ns tonic → Type 0
  Written k [] [] = Unit
  Written k [] (h ∷ hs) = ⊥
  Written k (s ∷ ss) [] = ⊥
  Written k (s ∷ ss) (h ∷ hs) = (h.0 ≡ k) × (tonic.value_try_from s ≡ ok h.1) × Written k ss hs

  -- The headers of an object: for each entry, under its key in lower case, those of its items.
  abbrev pub Headers : List (String × Value ns.N) → MetadataMap ns tonic → Type 0
  Headers [] hs = hs ≡ []
  Headers ((key, val) ∷ obj) hs =
      (k : tonic.MetaKey) × (lower : String) × (vs : List (Value ns.N)) × (ss : List String)
      × (own : MetadataMap ns tonic) × (more : MetadataMap ns tonic) × Lowercase key lower
      × (tonic.key_from_bytes lower ≡ ok k)
      × ItemsOf ns val vs
      × Texts ns vs ss
      × Written k ss own
      × Headers obj more
      × (hs ≡ own ++ more)

  abbrev pub IsMetadata : Option (Value ns.N) → MetadataMap ns tonic → Type 0
  IsMetadata none hs = hs ≡ []
  IsMetadata (some null) hs = hs ≡ []
  IsMetadata (some (object m)) hs = Headers (entries m) hs
  IsMetadata (some (bool b)) hs = ⊥
  IsMetadata (some (number n)) hs = ⊥
  IsMetadata (some (string s)) hs = ⊥
  IsMetadata (some (array vs)) hs = ⊥

  items_sound :
      (key : String) (k : tonic.MetaKey) (md md' : MetadataMap ns tonic) (vs : List (Value ns.N))
      → append_items ns tonic key k md vs ≡ ok md'
      → (hs : MetadataMap ns tonic) × Written k (texts ns tonic vs) hs × (md' ≡ md ++ hs)
  unfolding append_items append_text texts
  items_sound key k md md' [] h = ([], tt, sym (ok-injective h) ∙ sym (append-nil md))
  items_sound key k md md' (v ∷ vs) h =
      let (next, first, rest) =
        >>=-eq-ok (append_text ns tonic key k md (item_text ns tonic v)) _ h in
      let (hs, w, e) = items_sound key k next md' vs rest in
      go (item_text ns tonic v) next hs first w e
    where
      go :
          (o : Option String) (next hs : MetadataMap ns tonic)
          → append_text ns tonic key k md o ≡ ok next
          → Written k (texts ns tonic vs) hs
          → md' ≡ next ++ hs
          → (all : MetadataMap ns tonic) × Written k (kept ns tonic o (texts ns tonic vs)) all
            × (md' ≡ md ++ all)
      go none next hs first w e = (hs, w, e ∙ ap (λ m. m ++ hs) (sym (ok-injective first)))
      go (some s) next hs first w e =
          let (v', value, last) =
            >>=-eq-ok
              (map_err (λ t. call ("metadata '" ⧺ key ⧺ "': " ⧺ t)) (tonic.value_try_from s)) _
              first in
          (
            (k, v') ∷ hs,
            (refl, map_err-ok _ _ v' value, w),
            e ∙ ap (λ m. m ++ hs) (sym (ok-injective last)) ∙ append_assoc md ((k, v') ∷ []) hs,
          )

  items_complete :
      (key : String) (k : tonic.MetaKey) (md : MetadataMap ns tonic) (vs : List (Value ns.N))
      (hs : MetadataMap ns tonic)
      → Written k (texts ns tonic vs) hs
      → append_items ns tonic key k md vs ≡ ok (md ++ hs)
  unfolding append_items append_text texts
  items_complete key k md [] [] w = ap ok (sym (append-nil md))
  items_complete key k md [] (h ∷ hs) w = absurd w
  items_complete key k md (v ∷ vs) hs w =
      go (item_text ns tonic v) refl hs w (λ next own. items_complete key k next vs own)
    where
      go :
          (o : Option String)
          → item_text ns tonic v ≡ o
          → (hs : MetadataMap ns tonic) → Written k (kept ns tonic o (texts ns tonic vs)) hs
          → ((next own : MetadataMap ns tonic)
              → Written k (texts ns tonic vs) own
              → append_items ns tonic key k next vs ≡ ok (next ++ own))
          → append_items ns tonic key k md (v ∷ vs) ≡ ok (md ++ hs)
      go none e hs w rec = rw (append_items, e, append_text) (rec md hs w)
      go (some s) e [] w rec = absurd w
      go (some s) e ((k', v') ∷ hs) (same, value, w) rec =
          rw (append_items, e, append_text, value)
            (rec (md ++ (k, v') ∷ []) hs w
              ∙ ap ok (append_assoc md ((k, v') ∷ []) hs ∙ ap (λ x. md ++ (x, v') ∷ hs) (sym same)))

  entries_sound :
      (md md' : MetadataMap ns tonic) (obj : List (String × Value ns.N))
      → append_entries ns tonic md obj ≡ ok md'
      → (hs : MetadataMap ns tonic) × Headers obj hs × (md' ≡ md ++ hs)
  unfolding append_entries
  entries_sound md md' [] h = ([], refl, sym (ok-injective h) ∙ sym (append-nil md))
  entries_sound md md' ((key, val) ∷ obj) h =
      let (k, valid, h1) =
        >>=-eq-ok
          (map_err (λ e. call ("metadata key '" ⧺ key ⧺ "': " ⧺ e))
            (tonic.key_from_bytes (to_ascii_lowercase key)))
          _ h in
      let (next, first, h2) =
        >>=-eq-ok (append_items ns tonic key k md (value_items ns tonic val)) _ h1 in
      let (own, w, e) = items_sound key k md next (value_items ns tonic val) first in
      let (more, later, e') = entries_sound next md' obj h2 in
      (
        own ++ more,
        (
          k,
          to_ascii_lowercase key,
          value_items ns tonic val,
          texts ns tonic (value_items ns tonic val),
          own,
          more,
          to_ascii_lowercase-Lowercase key,
          map_err-ok _ _ k valid,
          value_items-ItemsOf ns tonic val,
          texts-Texts ns tonic (value_items ns tonic val),
          w,
          later,
          refl,
        ),
        e' ∙ ap (λ m. m ++ more) e ∙ append_assoc md own more,
      )

  entries_complete :
      (md hs : MetadataMap ns tonic) (obj : List (String × Value ns.N))
      → Headers obj hs
      → append_entries ns tonic md obj ≡ ok (md ++ hs)
  unfolding append_entries
  entries_complete md hs [] e = ap ok (sym (append-nil md) ∙ ap (λ l. md ++ l) (sym e))
  entries_complete md hs ((key, val) ∷ obj)
        (k, lower, vs, ss, own, more, low, valid, its, txt, w, later, e) =
      let valid' = subst (λ l. tonic.key_from_bytes l ≡ ok k) (Lowercase-eq key lower low) valid in
      let w' =
        subst (λ x. Written k x own)
          (Texts-eq ns tonic vs ss txt ∙ ap (texts ns tonic) (ItemsOf-eq ns tonic val vs its)) w in
      rw (append_entries, valid', items_complete key k md (value_items ns tonic val) own w')
        (entries_complete (md ++ own) more obj later
          ∙ ap ok (append_assoc md own more ∙ ap (λ l. md ++ l) (sym e)))

  -- The metadata is accepted exactly if it is absent, null or an object all of whose keys and values
  -- are valid; it then adds, in order and after what was there, one header for each item that is not
  -- null, under its key in ASCII lower case. The items are those of an array, or the value itself; an
  -- item's header is a string as it is, or any other value as it is printed.
  pub apply_metadata_iff :
      (md md' : MetadataMap ns tonic) (v : Option (Value ns.N))
      → (apply_metadata ns tonic md v ≡ ok md')
        ↔ ((hs : MetadataMap ns tonic) × IsMetadata v hs × (md' ≡ md ++ hs))
  unfolding apply_metadata
  apply_metadata_iff md md' v = (sound v, λ h. complete v h.0 h.1 ∙ ap ok (sym h.2))
    where
      sound :
          (v : Option (Value ns.N))
          → apply_metadata ns tonic md v ≡ ok md'
          → (hs : MetadataMap ns tonic) × IsMetadata v hs × (md' ≡ md ++ hs)
      sound none h = ([], refl, sym (ok-injective h) ∙ sym (append-nil md))
      sound (some null) h = ([], refl, sym (ok-injective h) ∙ sym (append-nil md))
      sound (some (object m)) h = entries_sound md md' (entries m) h
      sound (some (bool b)) h = cc
      sound (some (number n)) h = cc
      sound (some (string s)) h = cc
      sound (some (array vs)) h = cc

      complete :
          (v : Option (Value ns.N)) (hs : MetadataMap ns tonic)
          → IsMetadata v hs
          → apply_metadata ns tonic md v ≡ ok (md ++ hs)
      complete none hs e = ap ok (sym (append-nil md) ∙ ap (λ l. md ++ l) (sym e))
      complete (some null) hs e = ap ok (sym (append-nil md) ∙ ap (λ l. md ++ l) (sym e))
      complete (some (object m)) hs e = entries_complete md hs (entries m) e
      complete (some (bool b)) hs e = absurd e
      complete (some (number n)) hs e = absurd e
      complete (some (string s)) hs e = absurd e
      complete (some (array vs)) hs e = absurd e
