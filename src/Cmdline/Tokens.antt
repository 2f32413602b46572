-- ===== src/Cmdline/Tokens.antt =====
-- The tokens of `cmdline_tokenize`, os/minios/cmdline.c, and its array `argv`.
use cloning_apps.Base.{
  ℕ, zero, suc, ◌+◌, ◌-◌, ◌≤◌, ◌<◌, ◌≡◌, refl, ap, ◌∙◌, sym, false, Option, none, some, List, [],
  ◌∷◌, ◌++◌, arith, ◌==◌, ltb, if◌then◌else◌, length, length-append, drop, take, c_string,
  map_c_strings, Bool-cases, ltb→lt, lt→ltb, not_ltb→le, inl, inr, append-nil, append_assoc,
}
use cloning_apps.Cmdline.{Tokenized, end_token, put_text, is_blank, tokenize_loop, cmdline_tokenize}

-- The maximal runs of other bytes between spaces and tabs, given the run that has begun.
unfoldable pub words_from : Option (List ℕ) → List ℕ → List (List ℕ)
words_from none [] = []
words_from (some w) [] = w ∷ []
words_from none (c ∷ s) = if is_blank c then words_from none s else words_from (some (c ∷ [])) s
words_from (some w) (c ∷ s) =
    let rest = words_from none s in
    let more = words_from (some (w ++ c ∷ [])) s in if is_blank c then w ∷ rest else more

unfoldable pub words : List ℕ → List (List ℕ)
unfolding words_from
words s = words_from none s

-- No byte of the text is NUL.
abbrev pub NoNul : List ℕ → Type 0
NoNul [] = Unit
NoNul (c ∷ s) = ((c == 0) ≡ false) × NoNul s

NoNul-snoc : (w : List ℕ) (c : ℕ) → NoNul w → (c == 0) ≡ false → NoNul (w ++ c ∷ [])
NoNul-snoc [] c h e = (e, tt)
NoNul-snoc (x ∷ w) c h e = (h.0, NoNul-snoc w c h.1 e)

-- `argv` gets at most `argv_num` entries: behind the loop there is room for the last token.
length-tokenize_loop :
    (argv_num argc i : ℕ) (start : Option ℕ) (s : List ℕ)
    → argc + length (end_token start) ≤ argv_num
    → argc + length (tokenize_loop argv_num argc i start s).argv ≤ argv_num
unfolding tokenize_loop
length-tokenize_loop n argc i start [] h = h
length-tokenize_loop n argc i none (c ∷ s) h = ground (
  arith,
  length-tokenize_loop n argc (i + 1) none s,
  length-tokenize_loop n argc (i + 1) (some i) s,
)
length-tokenize_loop n argc i (some k) (c ∷ s) h = ground (
  arith,
  length-tokenize_loop n (argc + 1) (i + 1) none s,
  length-tokenize_loop n argc (i + 1) (some k) s,
)

-- `cmdline_tokenize` stores at most `argv_num` tokens, so it never writes behind `argv`.
pub length-cmdline_tokenize :
    (str : List ℕ) (argv_num : ℕ) → length (cmdline_tokenize str argv_num).argv ≤ argv_num
unfolding cmdline_tokenize
length-cmdline_tokenize str argv_num =
    omega (arith, length-tokenize_loop argv_num 0 0 none str (omega arith))

-- The string at an offset, when what follows it is NUL or the end.
drop-append : (p t : List ℕ) → drop (length p) (p ++ t) ≡ t
drop-append [] t = refl
drop-append (x ∷ p) t = drop-append p t

c_string-nul : (w t : List ℕ) → NoNul w → c_string (w ++ 0 ∷ t) ≡ w
c_string-nul [] t h = refl
c_string-nul (x ∷ w) t h = rw h.0 (ap (λ u. x ∷ u) (c_string-nul w t h.1))

c_string-end : (w : List ℕ) → NoNul w → c_string w ≡ w
c_string-end [] h = refl
c_string-end (x ∷ w) h = rw h.0 (ap (λ u. x ∷ u) (c_string-end w h.1))

-- The text that the loop leaves, behind the prefix that it has passed.
abbrev tokens_behind : List ℕ → Tokenized → List (List ℕ)
tokens_behind prefix r = map_c_strings (prefix ++ r.text) r.argv

tokens_behind-put_text :
    (c : ℕ) (prefix : List ℕ) (r : Tokenized)
    → tokens_behind prefix (put_text c r) ≡ tokens_behind (prefix ++ c ∷ []) r
tokens_behind-put_text c prefix r =
    ap (λ t. map_c_strings t r.argv) (sym (append_assoc prefix (c ∷ []) r.text))

-- The token that a blank ends.
token-nul :
    (prefix w t : List ℕ) → NoNul w → c_string (drop (length prefix) ((prefix ++ w) ++ 0 ∷ t)) ≡ w
token-nul prefix w t h =
    rw (append_assoc prefix w (0 ∷ t), drop-append prefix (w ++ 0 ∷ t)) (c_string-nul w t h)

token-end :
    (prefix w : List ℕ) → NoNul w → c_string (drop (length prefix) ((prefix ++ w) ++ [])) ≡ w
token-end prefix w h = rw (append-nil (prefix ++ w), drop-append prefix w) (c_string-end w h)

take-nil : (k : ℕ) → take {A = List ℕ} k [] ≡ []
take-nil zero = refl
take-nil (suc k) = refl

take-cons :
    (n argc : ℕ) (w : List ℕ) (ws : List (List ℕ))
    → argc < n
    → take (n - argc) (w ∷ ws) ≡ w ∷ take (n - (argc + 1)) ws
take-cons n argc w ws h = let e : n - argc ≡ suc (n - (argc + 1)) = omega arith in rw e

length-snoc : (p : List ℕ) (c i : ℕ) → i ≡ length p → i + 1 ≡ length (p ++ c ∷ [])
length-snoc p c i e = omega (arith, length-append p (c ∷ []))

mutual
  unfolding tokenize_loop words_from

  -- Between tokens, and within the token `w`. The prefix is the text already passed, as it is left.
  loop-words :
      (s prefix : List ℕ) (n argc i : ℕ)
      → NoNul s
      → i ≡ length prefix
      → tokens_behind prefix (tokenize_loop n argc i none s) ≡ take (n - argc) (words_from none s)
  loop-words [] prefix n argc i h e = sym (take-nil (n - argc))
  loop-words (c ∷ s) prefix n argc i h e = elim (Bool-cases (ltb argc n)) [
    | inr full ↦ let z : n - argc ≡ 0 = omega (arith, not_ltb→le argc n full) in rw (full, z)
    | inl room ↦
        rw (room, h.0)
          (elim (Bool-cases (is_blank c)) [
            | inl b ↦
                rw (b, tokens_behind-put_text 0 prefix)
                  (loop-words s (prefix ++ 0 ∷ []) n argc (i + 1) h.1 (length-snoc prefix 0 i e))
            | inr b ↦
                rw (b, tokens_behind-put_text c prefix)
                  (loop-words_in s prefix (c ∷ []) n argc (i + 1) i h.1 (h.0, tt)
                    (ltb→lt argc n room) (length-snoc prefix c i e) e)
          ])
  ]

  loop-words_in :
      (s prefix w : List ℕ) (n argc i k : ℕ)
      → NoNul s
      → NoNul w
      → argc < n
      → i ≡ length (prefix ++ w)
      → k ≡ length prefix
      → tokens_behind (prefix ++ w) (tokenize_loop n argc i (some k) s)
        ≡ take (n - argc) (words_from (some w) s)
  loop-words_in [] prefix w n argc i k h hw room e ek =
      rw (ek, token-end prefix w hw, take-cons n argc w [] room, take-nil (n - (argc + 1)))
  loop-words_in (c ∷ s) prefix w n argc i k h hw room e ek =
      rw (lt→ltb argc n room, h.0)
        (elim (Bool-cases (is_blank c)) [
          | inl b ↦
              rw (b, ek, token-nul prefix w _ hw, take-cons n argc w _ room)
                (ap (λ u. w ∷ u)
                  (tokens_behind-put_text 0 (prefix ++ w)
                      (tokenize_loop n (argc + 1) (i + 1) none s)
                    ∙ loop-words s ((prefix ++ w) ++ 0 ∷ []) n (argc + 1) (i + 1) h.1
                        (length-snoc (prefix ++ w) 0 i e)))
          | inr b ↦
              rw (b, tokens_behind-put_text c (prefix ++ w), append_assoc prefix w (c ∷ []))
                (loop-words_in s prefix (w ++ c ∷ []) n argc (i + 1) k h.1 (NoNul-snoc w c hw h.0)
                  room
                  (length-snoc (prefix ++ w) c i e ∙ ap length (append_assoc prefix w (c ∷ []))) ek)
        ])

-- The tokens of `cmdline_tokenize` are the first `argv_num` words of the text, as C strings in the
-- text that it leaves. The text has no NUL in it.
pub cmdline_tokenize-words :
    (str : List ℕ) (argv_num : ℕ)
    → NoNul str
    → let r = cmdline_tokenize str argv_num in
      map_c_strings r.text r.argv ≡ take argv_num (words str)
unfolding cmdline_tokenize words
cmdline_tokenize-words str argv_num h =
    loop-words str [] argv_num 0 0 h refl ∙ ap (λ k. take k (words_from none str)) (omega arith)
