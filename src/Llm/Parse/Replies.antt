-- ===== src/Llm/Parse/Replies.antt =====
-- internal/llm/parse.go, `parseDrafts`: which replies are read as the array that they hold.
use Prim.Native.Char.{Char}
use Prim.Native.String.{◌++◌ as append}
use text.Mathlib.TextLemmas.{nil-append, cons-append, append_assoc, append-nil}
use nous.Prelude.{
  false, Option, some, String, List, [], ◌⊎◌, inl, inr, ◌≡◌, refl, sym, ◌∙◌, ap, subst, arith,
  Bool-cases, trim_space, trim_left, trim_right, is_space, trim_left_solid, trim_right_solid,
  trim_left_solid_in, eq_iff, Lacks, cons_not_empty, str_eq,
}
use nous.Prelude.Time.{Time}
use nous.Prelude.Float.{Float64}
use nous.Llm.Parse.{
  RawDraft, starts_fence, after_newline, before_fence, strip_code_fences, parse_drafts, decoded,
}
use nous.Llm.Parse.Brackets.{trim_to_first_array}
use nous.Llm.Parse.Framed.{joins, IsBalanced, NoOpen, array_of, trim-framed, bracket-append}

-- An opening code fence.
abbrev pub fence : String → String
fence s = String.◌∷◌ "`" (String.◌∷◌ "`" (String.◌∷◌ "`" s))

-- A code fence around a text, with a language tag.
abbrev pub fenced : String → String → String
fenced lang s = fence (append lang (String.◌∷◌ "\n" (append s "\n```")))

after_newline_lem :
    (lang y : String) → Lacks b'\n' lang → after_newline (append lang (String.◌∷◌ "\n" y)) ≡ some y
unfolding after_newline
after_newline_lem String.[] y h = simp (nil-append) refl
after_newline_lem (String.◌∷◌ c lang) y h =
    simp (cons-append) (rw h.0 (after_newline_lem lang y h.1))

after_newline-fence : (s : String) → after_newline (fence s) ≡ after_newline s
unfolding after_newline
after_newline-fence s = refl

before_fence_end : (x : String) → before_fence (append x "```") ≡ some x
unfolding before_fence starts_fence
before_fence_end String.[] = refl
before_fence_end (String.◌∷◌ c x) = simp (cons-append) (rw (before_fence_end x) refl)

array_split :
    (body post : String)
    → append (array_of body) post ≡ append (String.◌∷◌ "[" body) (String.◌∷◌ "]" post)
array_split body post = simp (cons-append, append_assoc, bracket-append) refl

trim_right_around :
    (w body post : String)
    → trim_right (append w (append (array_of body) post))
      ≡ append w (append (array_of body) (trim_right post))
unfolding is_space
trim_right_around w body post =
    let front : String = String.◌∷◌ "[" body in
    let back = String.◌∷◌ "]" in
    rw (array_split body post, array_split body (trim_right post))
      (rw (← append_assoc w front (back post), ← append_assoc w front (back (trim_right post)))
        (trim_right_solid (append w front) "]" post refl))

trim_left_around :
    (w body post : String)
    → trim_left (append w (append (array_of body) post))
      ≡ append (trim_left w) (append (array_of body) post)
unfolding is_space
trim_left_around w body post =
    rw (cons-append "[" (append body "]") post)
      (trim_left_solid_in w "[" (append (append body "]") post) refl)

-- Trimming a text that holds an array trims what stands before it and behind it.
trim_space_around :
    (w body post : String)
    → trim_space (append w (append (array_of body) post))
      ≡ append (trim_left w) (append (array_of body) (trim_right post))
unfolding trim_space
trim_space_around w body post =
    rw (trim_left_around w body post) (trim_right_around (trim_left w) body post)

trim_space_array : (body : String) → trim_space (append (array_of body) "\n") ≡ array_of body
unfolding trim_left trim_right is_space
trim_space_array body =
    rw
      (
        nil-append (append (array_of body) "\n"),
        nil-append (append (array_of body) ""),
        append-nil (array_of body),
      )
      at (trim_space_around "" body "\n")

before_fence_array :
    (body : String)
    → before_fence (append (array_of body) "\n```") ≡ some (append (array_of body) "\n")
before_fence_array body =
    rw (append_assoc (array_of body) "\n" "```") at (before_fence_end (append (array_of body) "\n"))

strip_fenced :
    (lang body : String)
    → Lacks b'\n' lang
    → strip_code_fences (fenced lang (array_of body)) ≡ array_of body
unfolding strip_code_fences starts_fence
strip_fenced lang body h =
    rw (after_newline_lem lang (append (array_of body) "\n```") h)
      (rw (before_fence_array body) (trim_space_array body))

trim_to_array :
    (body : String) → IsBalanced body → trim_to_first_array (array_of body) ≡ array_of body
trim_to_array body b =
    rw (nil-append (append (array_of body) ""), append-nil (array_of body)) at
      (trim-framed "" body "" tt b)

fenced_ends :
    (lang s : String)
    → fenced lang s ≡ append (fence (append lang (String.◌∷◌ "\n" (append s "\n``")))) "`"
fenced_ends lang s = simp joins refl

trim_right_end :
    (s : String) (c : Char)
    → is_space c ≡ false
    → trim_right (append s (String.◌∷◌ c String.[])) ≡ append s (String.◌∷◌ c String.[])
unfolding trim_right
trim_right_end s c h = trim_right_solid s c "" h

trim_space-fenced :
    (lang body : String) → trim_space (fenced lang (array_of body)) ≡ fenced lang (array_of body)
unfolding trim_space is_space
trim_space-fenced lang body =
    ap trim_right (trim_left_solid (fenced lang (array_of body)) refl)
    ∙ subst (λ v. trim_right v ≡ v) (sym (fenced_ends lang (array_of body)))
        (trim_right_end _ "`" refl)

starts_fence_array : (s : String) → starts_fence (String.◌∷◌ "[" s) ≡ false
unfolding starts_fence
starts_fence_array String.[] = refl
starts_fence_array (String.◌∷◌ a String.[]) = refl
starts_fence_array (String.◌∷◌ a (String.◌∷◌ b s)) = refl

starts_fence_second :
    (a : Char) (s : String) → starts_fence (String.◌∷◌ a (String.◌∷◌ "[" s)) ≡ false
unfolding starts_fence
starts_fence_second a String.[] = refl
starts_fence_second a (String.◌∷◌ b s) = ground arith

-- No fence begins in what stands before an array and ends in the array.
starts_fence_before :
    (w z : String) → starts_fence w ≡ false → starts_fence (append w (String.◌∷◌ "[" z)) ≡ false
unfolding starts_fence
starts_fence_before String.[] z f = rw (nil-append (String.◌∷◌ "[" z)) (starts_fence_array z)
starts_fence_before (String.◌∷◌ a String.[]) z f = simp joins (starts_fence_second a z)
starts_fence_before (String.◌∷◌ a (String.◌∷◌ b String.[])) z f = simp joins (ground arith)
starts_fence_before (String.◌∷◌ a (String.◌∷◌ b (String.◌∷◌ c w))) z f = simp joins f

strip_unfenced :
    (w body post : String)
    → starts_fence w ≡ false
    → strip_code_fences (append w (append (array_of body) post))
      ≡ append w (append (array_of body) post)
unfolding strip_code_fences
strip_unfenced w body post f =
    rw (cons-append "[" (append body "]") post)
      (rw (starts_fence_before w (append (append body "]") post) f) refl)

trim_left-NoOpen : (s : String) → NoOpen s → NoOpen (trim_left s)
unfolding trim_left
trim_left-NoOpen String.[] h = tt
trim_left-NoOpen (String.◌∷◌ c s) h = elim (Bool-cases (is_space c)) [
  | inl e ↦ rw e (trim_left-NoOpen s h.1)
  | inr e ↦ rw e h
]

module _ (parse_time : String → String → Option Time) (quote : String → String) {F : Type 0}
    ⦃fl : Float64 F⦄ (unmarshal : String → String ⊎ List (RawDraft F)) where
  -- `json.Unmarshal` reads "[]" as no drafts, so the test for it changes nothing.
  parse_cleaned :
      (reply body : String)
      → trim_to_first_array (strip_code_fences (trim_space reply)) ≡ array_of body
      → unmarshal "[]" ≡ inr []
      → parse_drafts parse_time quote unmarshal reply
        ≡ decoded parse_time quote (unmarshal (array_of body))
  unfolding parse_drafts
  parse_cleaned reply body e h = rw e (
      rw (cons_not_empty "[" (append body "]")) (elim (Bool-cases (str_eq (array_of body) "[]")) [
        | inl k ↦ rw k (rw ((eq_iff (array_of body) "[]").0 k, h) refl)
        | inr k ↦ rw k refl
      ]))

  -- An array in a code fence, with or without a language tag on the fence's line, is handed to the JSON
  -- decoder exactly as it stands, if its brackets balance, and the drafts are made of what the
  -- decoder reads; the decoder is assumed to read "[]" as no drafts.
  pub parse-fenced :
      (lang body : String)
      → Lacks b'\n' lang
      → IsBalanced body
      → unmarshal "[]" ≡ inr []
      → parse_drafts parse_time quote unmarshal (fenced lang (array_of body))
        ≡ decoded parse_time quote (unmarshal (array_of body))
  parse-fenced lang body h b k =
      parse_cleaned (fenced lang (array_of body)) body
        (rw (trim_space-fenced lang body, strip_fenced lang body h) (trim_to_array body b)) k

  -- An array between a preamble and a closing remark is handed to the decoder exactly as it stands, if its
  -- brackets balance and the preamble has no `[` and does not begin with a code fence. The decoder reads the text [] as the empty
  -- array.
  pub parse-framed :
      (pre body post : String)
      → NoOpen pre
      → starts_fence (trim_left pre) ≡ false
      → IsBalanced body
      → unmarshal "[]" ≡ inr []
      → parse_drafts parse_time quote unmarshal (append pre (append (array_of body) post))
        ≡ decoded parse_time quote (unmarshal (array_of body))
  parse-framed pre body post h f b k =
      parse_cleaned (append pre (append (array_of body) post)) body
        (rw (trim_space_around pre body post) (
          rw (strip_unfenced (trim_left pre) body (trim_right post) f)
            (trim-framed (trim_left pre) body (trim_right post) (trim_left-NoOpen pre h) b)))
        k
