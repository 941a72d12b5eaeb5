-- ===== src/Template/Headers/Once.antt =====
-- src/template.cc: WriteOneHeaderEntry writes a name once for a file.
use ctemplate.Common.{ℕ, [], ◌∷◌, true, Bytes, equal, equal_refl, ◌≡◌, refl, inl, inr, Bool-cases}
use ctemplate.Template.Headers.{HeaderState, change_file, is_seen, write_one_header_entry}

change_file-current :
    (f : Bytes) (st : HeaderState) → equal f (change_file f st).current_file ≡ true
unfolding change_file
change_file-current f st = elim (Bool-cases (equal f st.current_file)) [
  | inl e ↦ rw (e, change_file) e
  | inr e ↦ rw (e, change_file) (equal_refl f)
]

module _ (global_id : Bytes → ℕ) (variable f : Bytes) where
  -- A name that was seen in the current file is not written again.
  pub write_one_header_entry-seen :
      (st : HeaderState)
      → equal f st.current_file ≡ true
      → is_seen variable st.vars_seen ≡ true
      → write_one_header_entry global_id variable f st ≡ ([], st)
  unfolding write_one_header_entry change_file
  write_one_header_entry-seen st same seen = rw (same, seen, write_one_header_entry) refl

  -- The second of two entries for the same name and file is empty and leaves the state as it is.
  pub write_one_header_entry-twice :
      (st : HeaderState)
      → let written = (write_one_header_entry global_id variable f st).1 in
        write_one_header_entry global_id variable f written ≡ ([], written)
  unfolding write_one_header_entry is_seen
  write_one_header_entry-twice st =
      let current = change_file f st in
      elim (Bool-cases (is_seen variable current.vars_seen)) [
        | inl e ↦
            rw (e, write_one_header_entry)
              (write_one_header_entry-seen current (change_file-current f st) e)
        | inr e ↦
            rw (e, write_one_header_entry)
              (write_one_header_entry-seen
                (record current { vars_seen = variable ∷ current.vars_seen })
                (change_file-current f st) (rw (equal_refl variable) refl))
      ]
