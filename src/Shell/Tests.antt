-- ===== src/Shell/Tests.antt =====
-- A value with a space and a quote.
use talos_box.Base.{[], codes, some, ◌≡◌, ◌≢◌, refl}
use talos_box.Shell.{quote}
use talos_box.Shell.Word.{plain, read_word, read_word-quote}

quote_test : quote (codes "it's") ≡ codes "'it'\"'\"'s'"
unfolding quote
quote_test = refl

read_word-quote_example :
    (read_word plain (quote (codes "it's $HOME")) ≡ some (codes "it's $HOME"))
    × (quote (codes "it's $HOME") ≢ [])
read_word-quote_example = read_word-quote (codes "it's $HOME")
