-- ===== src/Tests/Texts.antt =====
-- Texts without capitals and without space around them: the functions of `strings` leave them.
use identity_attack_graph.Prelude.{◌==◌, string_eq}
use identity_attack_graph.Prelude.Texts.{Strings}

abbrev pub plain : Strings
plain = record { lower = λ s. s; upper = λ s. s; trim = λ s. s; equal_fold = λ s t. s == t }
