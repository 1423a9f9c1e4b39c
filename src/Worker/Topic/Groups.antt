-- ===== src/Worker/Topic/Groups.antt =====
-- The topic pattern against an independent reading of it: which texts match, and with which groups.
use rpi_io_t_server_project.Base.{
  String, ◌<>◌, ◌≡◌, refl, ap, ◌∙◌, ◌⊎◌, inl, inr, Bool-cases, Option-cases, ◌==◌, ◌&&◌, Bool, true,
  false, some, arith, nat_eq,
}
use Prim.Native.Char.{Char, code}
use text.Mathlib.TextEquality.{Char-path}
use text.Mathlib.TextLemmas.{nil-append, cons-append}
use rpi_io_t_server_project.Worker.Topic.{
  slug_char, kind_char, all_chars, is_empty, cut_slash, chomp, strip_gw, match_topic,
}

-- A nonempty text of the characters of a class.
pub record IsWord (p : Char → Bool) (s : String) : Type 0 where
  pub nonempty : is_empty s ≡ false
  pub chars : all_chars p s ≡ true

slash_not_slug : (c : Char) → code c ≡ b'/' → slug_char c ≡ false
unfolding slug_char
slash_not_slug c h = ground arith

-- The first slash of a text ends a word of slug characters.
cut_slash-word :
    (s rest : String)
    → all_chars slug_char s ≡ true
    → cut_slash (s <> ("/" <> rest)) ≡ some (s, rest)
unfolding cut_slash all_chars
cut_slash-word String.[] rest h = rw (nil-append, cons-append, nil-append)
cut_slash-word (String.◌∷◌ c s) rest h =
    rw cons-append (ground (arith, cut_slash-word s rest, slash_not_slug c))

-- A word of the class has no newline to lose.
chomp-word : (s : String) → all_chars kind_char s ≡ true → chomp s ≡ s
unfolding chomp all_chars kind_char
chomp-word String.[] h = refl
chomp-word (String.◌∷◌ c s) h = ground (arith, chomp-word s)

is_empty-append : (s t : String) → is_empty t ≡ false → is_empty (s <> t) ≡ false
unfolding is_empty
is_empty-append String.[] t h = rw nil-append h
is_empty-append (String.◌∷◌ c s) t h = rw cons-append

-- One newline at the end is passed over.
chomp-newline : (s : String) → all_chars kind_char s ≡ true → chomp (s <> "\n") ≡ s
unfolding chomp all_chars kind_char is_empty
chomp-newline String.[] h = refl
chomp-newline (String.◌∷◌ c s) h = rw cons-append (ground (arith, chomp-newline s))

strip_gw-prefix : (s : String) → strip_gw ("gw/" <> s) ≡ some s
unfolding strip_gw
strip_gw-prefix s = rw (cons-append, cons-append, cons-append, nil-append)

-- For a serial and a kind that are nonempty words of their character classes, the topic
-- gw/{serial}/{kind} matches with these two groups, and so does the same text with a newline
-- behind it.
pub match_topic_complete :
    (serial kind : String)
    → IsWord slug_char serial
    → IsWord kind_char kind
    → (match_topic ("gw/" <> (serial <> ("/" <> kind))) ≡ some (serial, kind))
      × (match_topic ("gw/" <> (serial <> ("/" <> (kind <> "\n")))) ≡ some (serial, kind))
unfolding match_topic
match_topic_complete serial kind s k = (
  ground (
    arith,
    strip_gw-prefix (serial <> ("/" <> kind)),
    cut_slash-word serial kind s.chars,
    chomp-word kind k.chars,
    s,
    k,
  ),
  ground (
    arith,
    strip_gw-prefix (serial <> ("/" <> (kind <> "\n"))),
    cut_slash-word serial (kind <> "\n") s.chars,
    chomp-newline kind k.chars,
    s,
    k,
  ),
)

-- What is cut off is what stands in front of the first slash.
cut_slash_rest : (s a b : String) → cut_slash s ≡ some (a, b) → s ≡ a <> ("/" <> b)
unfolding cut_slash
cut_slash_rest String.[] a b h = absurd (ground arith)
cut_slash_rest (String.◌∷◌ c s) a b h = elim (Bool-cases (code c == b'/')) [
  | inl slash ↦
      let ea : a ≡ "" = ground arith in
      let eb : b ≡ s = ground arith in
      rw (ea, eb, Char-path c "/" (ground arith), nil-append, cons-append, nil-append)
  | inr other ↦ elim (Option-cases (cut_slash s)) [
    | inl none_left ↦ absurd (ground arith)
    | inr ((a', b'), cut) ↦
        let ea : a ≡ String.◌∷◌ c a' = ground arith in
        let eb : b ≡ b' = ground arith in
        rw (ea, eb, cons-append) (ap (λ t. String.◌∷◌ c t) (cut_slash_rest s a' b' cut))
  ]
]

strip_gw_rest : (t s : String) → strip_gw t ≡ some s → t ≡ "gw/" <> s
unfolding strip_gw
strip_gw_rest String.[] s h = absurd (ground arith)
strip_gw_rest (String.◌∷◌ a String.[]) s h = absurd (ground arith)
strip_gw_rest (String.◌∷◌ a (String.◌∷◌ b String.[])) s h = absurd (ground arith)
strip_gw_rest (String.◌∷◌ a (String.◌∷◌ b (String.◌∷◌ c t))) s h =
    let es : s ≡ t = ground arith in
    rw (
      es,
      Char-path a "g" (ground arith),
      Char-path b "w" (ground arith),
      Char-path c "/" (ground arith),
      cons-append,
      cons-append,
      cons-append,
      nil-append,
    )

empty_text : (s : String) → is_empty s ≡ true → s ≡ ""
unfolding is_empty
empty_text String.[] h = refl
empty_text (String.◌∷◌ c s) h = absurd (ground arith)

chomp_rest : (s : String) → (s ≡ chomp s) ⊎ (s ≡ chomp s <> "\n")
unfolding chomp
chomp_rest String.[] = inl refl
chomp_rest (String.◌∷◌ c s) = elim (Bool-cases (code c == 10 && is_empty s)) [
  | inl last ↦
      let es = empty_text s (ground arith) in
      rw last (inr (rw (es, Char-path c "\n" (ground arith), nil-append)))
  | inr more ↦ rw more (elim (chomp_rest s) [
    | inl same ↦ inl (ap (λ t. String.◌∷◌ c t) same)
    | inr cut ↦ inr (rw cons-append (ap (λ t. String.◌∷◌ c t) cut))
  ])
]

-- What a match says of its groups.
matched :
    (topic serial kind : String)
    → match_topic topic ≡ some (serial, kind)
    → IsWord slug_char serial
      × IsWord kind_char kind
      × ((s : String) × (rest : String) × (strip_gw topic ≡ some s)
          × (cut_slash s ≡ some (serial, rest))
          × (chomp rest ≡ kind))
unfolding match_topic
matched topic serial kind h = elim (Option-cases (strip_gw topic)) [
  | inl other ↦ absurd (ground arith)
  | inr (s, prefixed) ↦ elim (Option-cases (cut_slash s)) [
    | inl whole ↦ absurd (ground arith)
    | inr ((serial', rest), cut) ↦
        (ground arith, ground arith, (s, rest, prefixed, ground arith, ground arith))
  ]
]

-- If a topic matches with a serial and a kind, the serial is a nonempty word of letters, digits,
-- dashes and underscores, the kind is a nonempty word of lower-case letters, underscores and
-- slashes, and the topic is gw/{serial}/{kind}, or that with a newline behind it.
pub match_topic_sound :
    (topic serial kind : String)
    → match_topic topic ≡ some (serial, kind)
    → IsWord slug_char serial
      × IsWord kind_char kind
      × ((topic ≡ "gw/" <> (serial <> ("/" <> kind)))
          ⊎ (topic ≡ "gw/" <> (serial <> ("/" <> (kind <> "\n")))))
match_topic_sound topic serial kind h =
    let (w, v, (s, rest, prefixed, cut, ended)) = matched topic serial kind h in
    let e : topic ≡ "gw/" <> (serial <> ("/" <> rest)) =
      strip_gw_rest topic s prefixed ∙ ap (λ t. "gw/" <> t) (cut_slash_rest s serial rest cut) in
    (
      w,
      v,
      elim (chomp_rest rest) [
        | inl same ↦ inl (e ∙ ap (λ t. "gw/" <> (serial <> ("/" <> t))) (same ∙ ended))
        | inr line ↦
            inr (e ∙ ap (λ t. "gw/" <> (serial <> ("/" <> t))) (line ∙ ap (λ t. t <> "\n") ended))
      ],
    )
