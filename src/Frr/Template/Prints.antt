-- ===== src/Frr/Template/Prints.antt =====
-- Reading a configuration: its lines without the blank ones. A text that is a sequence of whole
-- lines, each behind a line break, is read line by line.
use pierre.Base.{
  ℕ, ◌==◌, ◌≡◌, refl, ap, sym, ◌∙◌, Bool, true, false, not, ◌&&◌, List, [], ◌∷◌, ◌++◌, Text, keep,
  All, append-nil, append_assoc, if◌then◌else◌, arith,
}

-- The bytes up to each line break, and those behind the last.
with_first : ℕ → List Text → List Text
with_first c [] = (c ∷ []) ∷ []
with_first c (l ∷ ls) = (c ∷ l) ∷ ls

unfoldable pub split_lines : Text → List Text
unfolding with_first
split_lines [] = [] ∷ []
split_lines (c ∷ cs) = let rest = split_lines cs in if c == 10 then [] ∷ rest else with_first c rest

unfoldable pub blank : Text → Bool
blank [] = true
blank (c ∷ cs) = c == 32 && blank cs

-- What FRR reads of a file: the lines that are not blank.
unfoldable pub reads : Text → List Text
unfolding split_lines blank
reads t = keep (λ l. not (blank l)) (split_lines t)

-- No line break.
unfoldable pub plain : Text → Bool
plain [] = true
plain (c ∷ cs) = not (c == 10) && plain cs

pub plain-append : (s t : Text) → plain s ≡ true → plain t ≡ true → plain (s ++ t) ≡ true
unfolding plain
plain-append [] t p q = q
plain-append (c ∷ s) t p q = ground (arith, plain-append s t)

abbrev lines : List Text → Text
lines [] = []
lines (l ∷ ls) = 10 ∷ (l ++ lines ls)

lines-append : (ks ls : List Text) → lines (ks ++ ls) ≡ lines ks ++ lines ls
lines-append [] ls = refl
lines-append (k ∷ ks) ls =
    ap (λ t. 10 ∷ (k ++ t)) (lines-append ks ls)
    ∙ ap (λ t. 10 ∷ t) (sym (append_assoc k (lines ks) (lines ls)))

keep-append : (f : Text → Bool) (ks ls : List Text) → keep f (ks ++ ls) ≡ keep f ks ++ keep f ls
keep-append f [] ls = refl
keep-append f (k ∷ ks) ls = ground (arith, keep-append f ks ls)

abbrev ArePlain : List Text → Type 0
ArePlain = All (λ l. plain l ≡ true)

ArePlain-append : (ks ls : List Text) → ArePlain ks → ArePlain ls → ArePlain (ks ++ ls)
ArePlain-append [] ls p q = q
ArePlain-append (k ∷ ks) ls (h, p) q = (h, ArePlain-append ks ls p q)

-- The text consists of whole lines, and of these the commands are not blank.
pub record Prints (t : Text) (commands : List Text) : Type 0 where
  pub all : List Text
  pub text : t ≡ lines all
  pub clean : ArePlain all
  pub kept : keep (λ l. not (blank l)) all ≡ commands

pub Prints-nil : Prints [] []
Prints-nil = record { all = []; text = refl; clean = tt; kept = refl }

pub Prints-append :
    {t u : Text} {cs ds : List Text} → Prints t cs → Prints u ds → Prints (t ++ u) (cs ++ ds)
Prints-append {t} {u} {cs} {ds} p q = record {
  all = p.all ++ q.all;
  text =
      ap (λ s. s ++ u) p.text ∙ ap (λ s. lines p.all ++ s) q.text ∙ sym (lines-append p.all q.all);
  clean = ArePlain-append p.all q.all p.clean q.clean;
  kept =
      keep-append (λ l. not (blank l)) p.all q.all
      ∙ ap (λ ls. ls ++ keep (λ l. not (blank l)) q.all) p.kept
      ∙ ap (λ ls. cs ++ ls) q.kept;
}

pub Prints-line : (l : Text) → plain l ≡ true → blank l ≡ false → Prints (10 ∷ l) (l ∷ [])
Prints-line l p b = record {
  all = l ∷ [];
  text = ap (λ t. 10 ∷ t) (sym (append-nil l));
  clean = (p, tt);
  kept = ground (arith, b);
}

pub Prints-blank : (l : Text) → plain l ≡ true → blank l ≡ true → Prints (10 ∷ l) []
Prints-blank l p b = record {
  all = l ∷ [];
  text = ap (λ t. 10 ∷ t) (sym (append-nil l));
  clean = (p, tt);
  kept = ground (arith, b);
}

split_first : (f rest : Text) → plain f ≡ true → split_lines (f ++ 10 ∷ rest) ≡ f ∷ split_lines rest
unfolding split_lines plain
split_first [] rest h = refl
split_first (c ∷ f) rest h = ground (arith, split_first f rest)

split_last : (f : Text) → plain f ≡ true → split_lines f ≡ f ∷ []
unfolding split_lines plain
split_last [] h = refl
split_last (c ∷ f) h = ground (arith, split_last f)

split-lines :
    (f : Text) (ls : List Text)
    → plain f ≡ true
    → ArePlain ls
    → split_lines (f ++ lines ls) ≡ f ∷ ls
split-lines f [] h a = ap split_lines (append-nil f) ∙ split_last f h
split-lines f (l ∷ ls) h (p, a) =
    split_first f (l ++ lines ls) h ∙ ap (λ ks. f ∷ ks) (split-lines l ls p a)

-- A first line, and lines behind it.
pub reads-append :
    (f u : Text) (cs : List Text)
    → plain f ≡ true
    → blank f ≡ false
    → Prints u cs
    → reads (f ++ u) ≡ f ∷ cs
unfolding reads
reads-append f u cs h b p =
    ap (λ s. keep (λ l. not (blank l)) (split_lines (f ++ s))) p.text
    ∙ ap (keep (λ l. not (blank l))) (split-lines f p.all h p.clean)
    ∙ ground (arith, b, p.kept)
