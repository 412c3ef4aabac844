-- ===== src/Storage/Keys.antt =====
-- Object keys and public URLs: `get_public_url` and `key_from_public_url`.
use goi_mon.Prelude.{
  ◌≤◌, String, Option, none, some, ◌≡◌, ◌≢◌, refl, ap, sym, ◌∙◌, arith, ◌<>◌, text_length,
  text_length-<>, <>_assoc,
}
use Prim.Native.Char.{Char}
use Prim.Native.String as Text
use goi_mon.Storage.{
  Config, marker_of, rstrip, get_public_url, strip_prefix, after_first, nonempty, or_later,
  key_from_public_url,
}

-- The text m does not begin anywhere in s before the end of s, if m follows s.
abbrev pub IsClear : String → String → Type 0
IsClear m Text.[] = Unit
IsClear m (Text.◌∷◌ c s) = (strip_prefix m (Text.◌∷◌ c (s <> m)) ≡ none) × IsClear m s

strip_prefix-<> : (m s : String) → strip_prefix m (m <> s) ≡ some s
unfolding strip_prefix
strip_prefix-<> Text.[] s = refl
strip_prefix-<> (Text.◌∷◌ c m) s = ground (arith, strip_prefix-<> m s)

-- What a text does not begin with, it does not begin with when it goes on.
strip_prefix-more :
    (m s t : String)
    → text_length m ≤ text_length s
    → strip_prefix m s ≡ none
    → strip_prefix m (s <> t) ≡ none
unfolding strip_prefix
strip_prefix-more Text.[] s t short h = ground arith
strip_prefix-more (Text.◌∷◌ c m) Text.[] t short h = absurd (omega arith)
strip_prefix-more (Text.◌∷◌ c m) (Text.◌∷◌ d s) t short h = ground (arith, strip_prefix-more m s t)

later-none : (o : Option String) (later : String) → o ≡ none → or_later o later ≡ later
later-none o later h = ap (λ (o' : Option String). or_later o' later) h

after_first-<> :
    (c : Char) (m p s : String)
    → IsClear (Text.◌∷◌ c m) p
    → after_first (Text.◌∷◌ c m) (p <> (Text.◌∷◌ c m <> s)) ≡ s
unfolding after_first
after_first-<> c m Text.[] s clear =
    ap (λ (o : Option String). or_later o (after_first (Text.◌∷◌ c m) (m <> s)))
      (strip_prefix-<> (Text.◌∷◌ c m) s)
after_first-<> c m (Text.◌∷◌ d p) s (here, later) =
    later-none _ _ (
      ap (strip_prefix (Text.◌∷◌ c m)) (sym (<>_assoc (Text.◌∷◌ d p) (Text.◌∷◌ c m) s))
      ∙ strip_prefix-more (Text.◌∷◌ c m) (Text.◌∷◌ d (p <> Text.◌∷◌ c m)) s
          (omega (arith, text_length-<> p (Text.◌∷◌ c m))) here)
    ∙ after_first-<> c m p s later

eq_of_nonempty : (s k : String) → nonempty s ≡ some k → s ≡ k
eq_of_nonempty Text.[] k h = cc
eq_of_nonempty (Text.◌∷◌ c s) k h = cc

longer : (q bucket key : String) → nonempty (q <> ("/" <> (bucket <> "/") <> key)) ≢ some key
longer q bucket key h =
    let same = ap text_length (eq_of_nonempty _ key h) in
    omega (
      arith,
      same,
      text_length-<> q ("/" <> (bucket <> "/") <> key),
      text_length-<> (bucket <> "/") key,
    )

module _ (cfg : Config) where
  -- Whatever text stands before the marker, also that of another server, the key is recovered.
  pub key_from_public_url-<> :
      (p key : String)
      → IsClear (marker_of cfg) p
      → key_from_public_url cfg (p <> (marker_of cfg <> key)) ≡ nonempty key
  unfolding key_from_public_url
  key_from_public_url-<> p key clear =
      ap nonempty (after_first-<> "/" (cfg.s3_bucket <> "/") p key clear)

  -- If the marker, the bucket's name between slashes, does not begin anywhere inside the
  -- configured base URL, which stands in front of it without its trailing slashes, then from the
  -- public URL of a key that is not empty the key is recovered.
  pub key_from_public_url-get_public_url :
      (key : String)
      → key ≢ ""
      → IsClear (marker_of cfg) (rstrip cfg.s3_public_url)
      → key_from_public_url cfg (get_public_url cfg key) ≡ some key
  unfolding get_public_url
  key_from_public_url-get_public_url Text.[] full clear = absurd (full refl)
  key_from_public_url-get_public_url (Text.◌∷◌ c key) full clear =
      key_from_public_url-<> (rstrip cfg.s3_public_url) (Text.◌∷◌ c key) clear

  -- A base URL that contains the marker hides every key: what is recovered is another text.
  pub key_from_public_url_misled :
      (p q key : String)
      → rstrip cfg.s3_public_url ≡ p <> (marker_of cfg <> q)
      → IsClear (marker_of cfg) p
      → key_from_public_url cfg (get_public_url cfg key) ≢ some key
  unfolding get_public_url
  key_from_public_url_misled p q key base clear found =
      let m = marker_of cfg in
      let whole : (p <> (m <> q)) <> (m <> key) ≡ p <> (m <> (q <> (m <> key))) =
        <>_assoc p (m <> q) (m <> key) ∙ ap (λ (t : String). p <> t) (<>_assoc m q (m <> key)) in
      longer q cfg.s3_bucket key (
        sym (key_from_public_url-<> p (q <> (m <> key)) clear)
        ∙ ap (key_from_public_url cfg) (sym (ap (λ (b : String). b <> (m <> key)) base ∙ whole))
        ∙ found)
