-- ===== src/Runner/Interpreter/Choice.antt =====
-- SelectInterpreter and interpreterCommandByName (service/internal/runner/interpreter.go) against
-- each other and against the archives of service/internal/runner/extract.go.
use aifstudio.Prelude.{
  ◌≡◌, refl, sym, ap, ◌∙◌, ◌⊎◌, inl, inr, true, List, [], ◌∷◌, ◌++◌, some, arith, In, here, there,
  All, All-In, append_assoc, is_some,
}
use aifstudio.Text.{Text, text, text_eq, to_lower, lower_char, has_suffix}
use aifstudio.Text.Laws.{any_complete, has_suffix-append, elem_sound}
use aifstudio.FilePath.Laws.{IsPlain}
use aifstudio.FilePath.Join.{join2_ends}
use aifstudio.Runner.Archive.{Entry, story, if_exts, lower_ext, out_path, extract_zip}
use aifstudio.Runner.Archive.Best.{extract_zip_largest}
use aifstudio.Runner.Interpreter.{
  Cmd, has_any_suffix, dfrotz_exts, glulxe_exts, frob_exts, select_interpreter,
  interpreter_command_by_name,
}

-- The interpreter that was recorded for a story on its first start is spawned by that name with the
-- same command on every later start.
pub resume_same :
    (path : Text) {n : Text} {c : Cmd}
    → select_interpreter path ≡ some (n, c)
    → interpreter_command_by_name n path ≡ some c
unfolding select_interpreter interpreter_command_by_name text_eq
resume_same path e = ground arith

story_names : All (λ e. IsPlain (text "story" ++ e)) if_exts
story_names = ground arith

to_lower-append : (s t : Text) → to_lower (s ++ t) ≡ to_lower s ++ to_lower t
unfolding to_lower
to_lower-append [] t = refl
to_lower-append (c ∷ s) t = ap (λ l. lower_char c ∷ l) (to_lower-append s t)

story_lower : All (λ e. to_lower (text "story" ++ e) ≡ text "story" ++ e) if_exts
unfolding to_lower lower_char
story_lower =
    (refl, (refl, (refl, (refl, (refl, (refl, (refl, (refl, (refl, (refl, (refl, tt)))))))))))

-- Which interpreter takes an extension.
abbrev Group : Text → Type 0
Group e = In e dfrotz_exts ⊎ In e glulxe_exts ⊎ In e frob_exts

groups : All Group if_exts
groups = (
  inl here,
  (
    inl (there here),
    (
      inl (there (there here)),
      (
        inl (there (there (there here))),
        (
          inl (there (there (there (there here)))),
          (
            inl (there (there (there (there (there here))))),
            (
              inl (there (there (there (there (there (there here)))))),
              (
                inr (inl here),
                (inr (inl (there here)), (inr (inr here), (inr (inr (there here)), tt))),
              ),
            ),
          ),
        ),
      ),
    ),
  ),
)

suffix-Group :
    (s e : Text)
    → Group e
    → (has_any_suffix (s ++ e) dfrotz_exts ≡ true)
      ⊎ (has_any_suffix (s ++ e) glulxe_exts ≡ true)
      ⊎ (has_any_suffix (s ++ e) frob_exts ≡ true)
unfolding has_any_suffix
suffix-Group s e (inl i) = inl (any_complete (has_suffix (s ++ e)) i (has_suffix-append s e))
suffix-Group s e (inr (inl i)) =
    inr (inl (any_complete (has_suffix (s ++ e)) i (has_suffix-append s e)))
suffix-Group s e (inr (inr i)) =
    inr (inr (any_complete (has_suffix (s ++ e)) i (has_suffix-append s e)))

out_path_lower : (d e : Text) → In e if_exts → (r : Text) × (to_lower (out_path d e) ≡ r ++ e)
unfolding out_path
out_path_lower d e i =
    let (r, q) =
      join2_ends d (text "story" ++ e) (All-In (λ x. IsPlain (text "story" ++ x)) i story_names) in
    let lower : to_lower (text "story" ++ e) ≡ text "story" ++ e =
      All-In (λ x. to_lower (text "story" ++ x) ≡ text "story" ++ x) i story_lower in
    (
      to_lower r ++ text "story",
      ap to_lower q
          ∙ to_lower-append r (text "story" ++ e)
          ∙ ap (λ t. to_lower r ++ t) lower
          ∙ sym (append_assoc (to_lower r) (text "story") e),
    )

select_of_suffix :
    (path : Text)
    → (has_any_suffix (to_lower path) dfrotz_exts ≡ true)
      ⊎ (has_any_suffix (to_lower path) glulxe_exts ≡ true)
      ⊎ (has_any_suffix (to_lower path) frob_exts ≡ true)
    → is_some (select_interpreter path) ≡ true
unfolding select_interpreter
select_of_suffix path h = ground arith

select_of_Group :
    (path r e : Text) → to_lower path ≡ r ++ e → Group e → is_some (select_interpreter path) ≡ true
select_of_Group path r e q g = select_of_suffix path (rw q (suffix-Group r e g))

-- Every story file that extractZip gives has an interpreter.
pub extracted_playable :
    (fs : List Entry) (d : Text) {w : List Text} {p : Text}
    → extract_zip (some fs) d ≡ story w p
    → is_some (select_interpreter p) ≡ true
extracted_playable fs d e =
    let (f, i, c, q, m) = extract_zip_largest fs d e in
    let known = elem_sound (lower_ext f.name) if_exts c.1 in
    let (r, l) = out_path_lower d (lower_ext f.name) known in
    select_of_Group _ r _ (ap to_lower q ∙ l) (All-In Group known groups)
