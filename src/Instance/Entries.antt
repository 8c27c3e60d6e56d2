-- ===== src/Instance/Entries.antt =====
-- The table of metadata entries, at indices that count from 1.
use mathlib.Core.Path.{subst}
use omni_file_system.Prelude.{
  ℕ, zero, suc, ◌<◌, ◌≡◌, ◌≢◌, refl, ap, sym, ◌∙◌, some, List, [], ◌∷◌, arith, length, length-set,
  get_elem?, get_elem?-set_self, get_elem?-set_ne, set,
}
use omni_file_system.Prelude.Preds.{All}
use omni_file_system.Types.{MetaEntry}
use omni_file_system.Instance.{entry?, set_entry}

get_elem?-inside :
    (es : List MetaEntry) (i : ℕ) (e : MetaEntry) → get_elem? es i ≡ some e → i < length es
get_elem?-inside [] i e h = absurd (ground arith)
get_elem?-inside (x ∷ es) zero e h = omega arith
get_elem?-inside (x ∷ es) (suc i) e h = let lt = get_elem?-inside es i e h in omega arith

pub entry?-set_entry_self :
    (es : List MetaEntry) (i : ℕ) (old e : MetaEntry)
    → entry? es i ≡ some old
    → entry? (set_entry es i e) i ≡ some e
entry?-set_entry_self es zero old e h = absurd (ground arith)
entry?-set_entry_self es (suc i) old e h = get_elem?-set_self es i e (get_elem?-inside es i old h)

pub entry?-set_entry_ne :
    (es : List MetaEntry) (i j : ℕ) (e : MetaEntry)
    → i ≢ j
    → entry? (set_entry es i e) j ≡ entry? es j
entry?-set_entry_ne es zero j e ne = refl
entry?-set_entry_ne es (suc i) zero e ne = refl
entry?-set_entry_ne es (suc i) (suc j) e ne = get_elem?-set_ne es e (λ h. ne (ap suc h))

pub length-set_entry :
    (es : List MetaEntry) (i : ℕ) (e : MetaEntry) → length (set_entry es i e) ≡ length es
length-set_entry es zero e = refl
length-set_entry es (suc i) e = length-set es i e

module _ {κ} (P : MetaEntry → Type κ) where
  All-set : (es : List MetaEntry) (i : ℕ) (e : MetaEntry) → All P es → P e → All P (set es i e)
  All-set [] i e every here = tt
  All-set (x ∷ es) zero e every here = (here, every.1)
  All-set (x ∷ es) (suc i) e every here = (every.0, All-set es i e every.1 here)

  pub All-set_entry :
      (es : List MetaEntry) (i : ℕ) (e : MetaEntry) → All P es → P e → All P (set_entry es i e)
  All-set_entry es zero e every here = every
  All-set_entry es (suc i) e every here = All-set es i e every here

  All-get : (es : List MetaEntry) (i : ℕ) (e : MetaEntry) → All P es → get_elem? es i ≡ some e → P e
  All-get [] i e every h = absurd (ground arith)
  All-get (x ∷ es) zero e every h = let same : x ≡ e = ground arith in subst P same every.0
  All-get (x ∷ es) (suc i) e every h = All-get es i e every.1 h

  pub All-entry? :
      (es : List MetaEntry) (i : ℕ) (e : MetaEntry) → All P es → entry? es i ≡ some e → P e
  All-entry? es zero e every h = absurd (ground arith)
  All-entry? es (suc i) e every h = All-get es i e every h

-- An index names one entry.
pub entry?-unique :
    (es : List MetaEntry) (i j : ℕ) (a b : MetaEntry)
    → entry? es i ≡ some a
    → entry? es j ≡ some b
    → i ≡ j
    → a ≡ b
entry?-unique es i j a b h k same =
    let both : some a ≡ some b = sym h ∙ ap (entry? es) same ∙ k in ground arith
