-- ===== src/ConfigStore/Files/Writes.antt =====
-- What one call of writeFileAtomic leaves on the disk (apps/bridge/internal/configstore/store.go).
use proxmox_desk_display.Base.{
  ◌⊎◌, Bool-cases, none, sym, ap, Option, ◌∙◌, [], ◌∷◌, some, refl, inl, inr, ◌≡◌, if◌then◌else◌,
  Option-cases, ◌≢◌,
}
use proxmox_desk_display.Errors.{empty_path, ok, err, Result, Error, Result-cases}
use proxmox_desk_display.ConfigStore.Files.{
  clean_up, absent, check, ◌>>◌, write_file_atomic, Faults, DiskFiles,
}
use proxmox_desk_display.Base.Text.{Text, text_eq}
use proxmox_desk_display.Base.Text.Laws.{text_eq_refl, text_eq-ne, text_eq→eq}

-- A write that fails keeps every file: only its temporary file, whose name is new, can be left.
pub record IsUntouched (os : Faults) (path : Text) (disk d : DiskFiles) : Type 0 where
  pub existing : (q x : Text) → disk q ≡ some x → d q ≡ some x
  pub others : (q : Text) → q ≢ os.temp path → d q ≡ disk q
  pub removed : os.remove (os.temp path) ≡ none → (q : Text) → d q ≡ disk q

pub untouched : (os : Faults) (path : Text) (disk : DiskFiles) → IsUntouched os path disk disk
untouched os path disk = record {
  existing = λ q x h. h;
  others = λ q ne. refl;
  removed = λ r q. refl;
}

none-ne-some : (x : Text) → none ≡ some x → ⊥
none-ne-some x h = cc

clean_up-other :
    (os : Faults) (temp left q : Text) (disk : DiskFiles)
    → q ≢ temp
    → clean_up os temp left disk q ≡ disk q
unfolding clean_up
clean_up-other os temp left q disk ne = elim (Option-cases (os.remove temp)) [
  | inl p ↦ rw (p, clean_up, text_eq-ne q temp ne) refl
  | inr (e, p) ↦ rw (p, clean_up, text_eq-ne q temp ne) refl
]

clean_up-IsUntouched :
    (os : Faults) (path left : Text) (disk : DiskFiles)
    → disk (os.temp path) ≡ none
    → IsUntouched os path disk (clean_up os (os.temp path) left disk)
unfolding clean_up
clean_up-IsUntouched os path left disk new = record {
  existing = λ q x h.
      clean_up-other os (os.temp path) left q disk
        (λ e. none-ne-some x (sym new ∙ ap disk (sym e) ∙ h))
      ∙ h;
  others = λ q ne. clean_up-other os (os.temp path) left q disk ne;
  removed = λ r q. elim (Bool-cases (text_eq q (os.temp path))) [
    | inl p ↦ rw (r, clean_up, p) (sym (ap disk (text_eq→eq q (os.temp path) p) ∙ new))
    | inr p ↦ rw (r, clean_up, p) refl
  ];
}

absent-none : (x : Option Text) (u : Unit {0}) → absent x ≡ ok u → x ≡ none
absent-none none u h = refl
absent-none (some b) u h = cc

then_ok : (m n : Result (Unit {0})) (u : Unit {0}) → (m >> n) ≡ ok u → n ≡ ok u
then_ok (ok v) n u h = h
then_ok (err e) n u h = cc

-- A write either fails with the files kept, or sets its path, and no other.
pub write_file-cases :
    (os : Faults) (path bytes : Text) (disk : DiskFiles)
    → ((e : Error) × (d : DiskFiles) × (write_file_atomic os path bytes disk ≡ (err e, d))
        × IsUntouched os path disk d)
      ⊎ ((d : DiskFiles) × (write_file_atomic os path bytes disk ≡ (ok tt, d))
          × (d path ≡ some bytes)
          × ((q : Text) → q ≢ path → d q ≡ disk q))
unfolding write_file_atomic
write_file-cases os [] bytes disk = inl (empty_path, disk, refl, untouched os [] disk)
write_file-cases os (c ∷ s) bytes disk =
    let path = c ∷ s in
    let temp = os.temp path in
    elim (Result-cases (check (os.mkdir path) >> check (os.create path) >> absent (disk temp))) [
      | inl (e, p) ↦ inl (e, disk, rw (p, write_file_atomic) refl, untouched os path disk)
      | inr (u, p) ↦
          let new =
            absent-none (disk temp) u (
              then_ok (check (os.mkdir path) >> check (os.create path)) (absent (disk temp)) u p) in
          elim (Option-cases (os.write path)) [
            | inr (e, q) ↦ inl (
              e,
              clean_up os temp (os.written path bytes) disk,
              rw (p, q, write_file_atomic) refl,
              clean_up-IsUntouched os path (os.written path bytes) disk new,
            )
            | inl q ↦
                elim (Result-cases
                  (check (os.chmod path) >> check (os.close path) >> check (os.rename path))) [
                    | inl (e, r) ↦ inl (
                      e,
                      clean_up os temp bytes disk,
                      rw (p, q, r, write_file_atomic) refl,
                      clean_up-IsUntouched os path bytes disk new,
                    )
                    | inr (v, r) ↦ inr (
                      (λ x.
                          if text_eq x path
                          then some bytes
                          else if text_eq x temp
                          then none
                          else disk x),
                      rw (p, q, r, write_file_atomic) refl,
                      rw (text_eq_refl path) refl,
                      λ x ne. moved x ne new,
                    )
                  ]
          ]
    ]
  where
    moved :
        (x : Text)
        → x ≢ c ∷ s
        → disk (os.temp (c ∷ s)) ≡ none
        → (if text_eq x (c ∷ s)
            then some bytes
            else if text_eq x (os.temp (c ∷ s))
            then none
            else disk x)
          ≡ disk x
    moved x ne new = elim (Bool-cases (text_eq x (os.temp (c ∷ s)))) [
      | inl p ↦
          rw (text_eq-ne x (c ∷ s) ne, p) (sym (ap disk (text_eq→eq x (os.temp (c ∷ s)) p) ∙ new))
      | inr p ↦ rw (text_eq-ne x (c ∷ s) ne, p) refl
    ]
