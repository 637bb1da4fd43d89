-- ===== src/Store/Codec/Exact.antt =====
-- crates/laya-store/src/store.rs: a chunk read back from its fields.
use laya_codex.Common.{
  ◌<◌, ◌^◌, ◌≡◌, refl, false, not, ◌&&◌, some, List, [], ◌∷◌, arith, ◌==◌, Bool-cases, inl, inr,
  All,
}
use laya_codex.Common.Decimal.{parse_u32-decimal}
use laya_codex.Common.Text.{Text, join, has}
use laya_codex.Common.Splitting.{Free}
use laya_codex.Core.{
  Lang, rust, python, typescript, tsx, javascript, go, java, c, cpp, csharp, ruby, php, kotlin,
  swift, text, Chunk,
}
use laya_codex.Store.Keys.{not_empty, IsPiece, split_on-join}
use laya_codex.Store.Codec.{
  ident_sep, as_str, Hash, field_value, lang_from_str, split_idents, has_sep, clean_from,
  clean_idents, fields_of, idents_of, chunk_from_hash, unwrap_or_default,
}

lang_from_str-as_str : (l : Lang) → lang_from_str (as_str l) ≡ l
unfolding lang_from_str as_str
lang_from_str-as_str rust = refl
lang_from_str-as_str python = refl
lang_from_str-as_str typescript = refl
lang_from_str-as_str tsx = refl
lang_from_str-as_str javascript = refl
lang_from_str-as_str go = refl
lang_from_str-as_str java = refl
lang_from_str-as_str c = refl
lang_from_str-as_str cpp = refl
lang_from_str-as_str csharp = refl
lang_from_str-as_str ruby = refl
lang_from_str-as_str php = refl
lang_from_str-as_str kotlin = refl
lang_from_str-as_str swift = refl
lang_from_str-as_str text = refl

-- What the store keeps of an identifier list.
abbrev IsIdent : Text → Type 0
IsIdent = IsPiece ident_sep

Free-has_sep : (d : Text) → has_sep d ≡ false → Free (λ a. a == ident_sep) d
unfolding has_sep
Free-has_sep [] h = tt
Free-has_sep (a ∷ d) h = (ground arith, Free-has_sep d (ground arith))

IsIdent-clean_from : (seen v : List Text) → All IsIdent (clean_from seen v)
unfolding clean_from
IsIdent-clean_from seen [] = tt
IsIdent-clean_from seen (d ∷ v) =
    elim (Bool-cases (not_empty d && not (has_sep d) && not (has d seen))) [
      | inl e ↦
          rw e ((ground arith, Free-has_sep d (ground arith)), IsIdent-clean_from (d ∷ seen) v)
      | inr e ↦ rw e (IsIdent-clean_from seen v)
    ]

pub split_idents-clean_idents :
    (v : List Text) → split_idents (join (ident_sep ∷ []) (clean_idents v)) ≡ clean_idents v
unfolding clean_idents split_idents
split_idents-clean_idents v = split_on-join ident_sep (clean_from [] v) (IsIdent-clean_from [] v)

-- A chunk with the identifiers that the store can keep.
abbrev pub cleaned : Chunk → Chunk
cleaned chunk = record chunk {
  defines = clean_idents chunk.defines;
  refs = clean_idents chunk.refs;
}

-- The hash has each of the fields.
abbrev pub HasFields : Hash → Hash → Type 0
HasFields fields h = All (λ field. field_value field.0 h ≡ some field.1) fields

-- A hash with the fields of a chunk reads back as the chunk.
pub chunk_from_hash-fields_of :
    (chunk : Chunk) (terms : Text) (h : Hash)
    → chunk.start_line < 2 ^ 32
    → chunk.end_line < 2 ^ 32
    → HasFields (fields_of chunk terms) h
    → chunk_from_hash h ≡ some (cleaned chunk)
unfolding chunk_from_hash fields_of idents_of unwrap_or_default
chunk_from_hash-fields_of chunk terms h s e
      (path, (start, (end, (lang, (symbol, (kind, (defines, (refs, (_, (text', _)))))))))) =
    rw
      (
        path,
        start,
        parse_u32-decimal chunk.start_line s,
        end,
        parse_u32-decimal chunk.end_line e,
        lang,
        lang_from_str-as_str chunk.lang,
        symbol,
        kind,
        defines,
        split_idents-clean_idents chunk.defines,
        refs,
        split_idents-clean_idents chunk.refs,
        text',
      )
      refl
