-- ===== src/Shell/Builtins/Env/Echo.antt =====
-- What `echo -e` prints, for `builtin_echo` in crates/wasm_shell/src/builtins.rs.
use wasm_shell.Base.{
  Bool, true, false, List, [], ◌∷◌, ◌++◌, Str, str_eq, codes, join, map, ◌||◌, ◌==◌, str_dec, ok,
  ◌≡◌, refl, ap, sym, ◌∙◌, arith, Bool-cases, inl, inr,
}
use wasm_shell.Shell.State.{success, write_to}
use wasm_shell.Shell.Context.{Context, stdout}
use wasm_shell.Shell.Builtins.Text.{escape_backslashes, interpret_escapes-escape_backslashes}
use wasm_shell.Shell.Builtins.Env.{print, after_name, echo_options, echo_words, builtin_echo}

-- The word is an option of `echo`.
abbrev pub is_option : Str → Bool
is_option a =
    str_eq a (codes "-n")
    || str_eq a (codes "-e")
    || str_eq a (codes "-E")
    || (str_eq a (codes "-ne") || str_eq a (codes "-en"))

escape_backslashes-append :
    (s t : Str) → escape_backslashes (s ++ t) ≡ escape_backslashes s ++ escape_backslashes t
unfolding escape_backslashes
escape_backslashes-append [] t = refl
escape_backslashes-append (c ∷ s) t =
    let h = escape_backslashes-append s t in
    elim (Bool-cases (c == b'\\')) [ inl y ↦ rw (y, h) refl | inr n ↦ rw (n, h) refl ]

escape_backslashes-join :
    (ws : List Str)
    → escape_backslashes (join (codes " ") ws) ≡ join (codes " ") (map escape_backslashes ws)
unfolding join escape_backslashes
escape_backslashes-join [] = refl
escape_backslashes-join (w ∷ []) = refl
escape_backslashes-join (w ∷ v ∷ ws) =
    escape_backslashes-append w (codes " " ++ join (codes " ") (v ∷ ws))
    ∙ ap (λ t. escape_backslashes w ++ b' ' ∷ t) (escape_backslashes-join (v ∷ ws))

pub echo_options_stop :
    (no_newline escape : Bool) (a : Str) (args : List Str)
    → is_option a ≡ false
    → echo_options no_newline escape (a ∷ args) ≡ (no_newline, escape, a ∷ args)
unfolding echo_options
echo_options_stop no_newline escape a args h = ground arith

module _ {W : Type 0} where
  -- `echo -e` with words whose backslashes are doubled, of which the first is no option of `echo`, writes the
  -- words themselves with a space between each two, and a newline.
  pub echo-escape_backslashes :
      (ctx : Context W) (name w : Str) (ws : List Str)
      → ctx.args ≡ name ∷ codes "-e" ∷ map escape_backslashes (w ∷ ws)
      → is_option (escape_backslashes w) ≡ false
      → builtin_echo ctx ≡ (
        print (stdout ctx) (codes "\n") (print (stdout ctx) (join (codes " ") (w ∷ ws)) ctx),
        ok success,
      )
  unfolding builtin_echo after_name echo_words echo_options str_dec escape_backslashes write_to
  echo-escape_backslashes ctx name w ws e h =
      rw
        (
          e,
          echo_options_stop false true (escape_backslashes w) (map escape_backslashes ws) h,
          sym (escape_backslashes-join (w ∷ ws)),
          interpret_escapes-escape_backslashes (join (codes " ") (w ∷ ws)),
        )
        refl
