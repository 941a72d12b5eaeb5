-- ===== src/Tests/Support.antt =====
-- src/template_pathops.cc: runs on file names, and instances of the theorems.
use ctemplate.Common.{◌≡◌, ◌⊎◌, refl, arith, true, false, codes}
use ctemplate.Pathops.{
  path_join, normalize_directory, basename, contains_full_word, occurs, find, byte_at,
  pre_delimited, post_delimited, word_loop, behind_separator, is_abspath, is_directory,
}
use ctemplate.Pathops.Split.{HasFullWord, contains_full_word-HasFullWord}

path_runs :
    (path_join (codes "a") (codes "b") ≡ codes "a/b")
    × (path_join (codes "a/") (codes "b") ≡ codes "a/b")
    × (path_join (codes "a") (codes "/b") ≡ codes "/b")
    × (normalize_directory (codes "a") ≡ codes "a/")
    × (basename (codes "/a/b.css") ≡ codes "b.css")
unfolding path_join normalize_directory basename behind_separator is_abspath is_directory
path_runs = (refl, refl, refl, refl, refl)

word_runs :
    (contains_full_word (codes "my.css.tpl") (codes "css") ≡ true)
    × (contains_full_word (codes "css_main") (codes "css") ≡ true)
    × (contains_full_word (codes "mycss.tpl") (codes "css") ≡ false)
unfolding contains_full_word occurs find byte_at pre_delimited post_delimited word_loop
word_runs = (refl, refl, refl)

contains_full_word-HasFullWord_example :
    ((contains_full_word (codes "my.css") (codes "css") ≡ true)
      × HasFullWord (codes "my.css") (codes "css"))
    ⊎ ((contains_full_word (codes "my.css") (codes "css") ≡ false)
        × ¬ HasFullWord (codes "my.css") (codes "css"))
contains_full_word-HasFullWord_example =
    contains_full_word-HasFullWord (codes "my.css") (codes "css") (refl, (refl, (refl, tt)))
      (omega arith)
