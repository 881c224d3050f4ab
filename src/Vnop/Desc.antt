-- ===== src/Vnop/Desc.antt =====
-- The kernel's vnode operation descriptors (`&vnop_lookup_desc` and so on), as far as the filter
-- names them. They are distinct objects, so a descriptor's address is modelled by its name.
use mac_osx_file_system_filt.Base.{ℕ, ◌≡◌, refl, List, [], ◌∷◌, Bool, true, ap, ◌∙◌, sym}
use mac_osx_file_system_filt.Base.{◌==◌, ==_refl, eq_of_==, get_or}

pub data VnodeopDesc : Type 0 where
  vnop_lookup vnop_create vnop_whiteout vnop_mknod vnop_open vnop_close vnop_access vnop_inactive
        vnop_reclaim vnop_read vnop_write vnop_pagein vnop_pageout vnop_strategy vnop_mmap
        vnop_rename vnop_pathconf vnop_exchange vnop_default :
      VnodeopDesc

-- A number for each descriptor, by which the pointers are compared.
unfoldable pub desc_number : VnodeopDesc → ℕ
desc_number vnop_lookup = 0
desc_number vnop_create = 1
desc_number vnop_whiteout = 2
desc_number vnop_mknod = 3
desc_number vnop_open = 4
desc_number vnop_close = 5
desc_number vnop_access = 6
desc_number vnop_inactive = 7
desc_number vnop_reclaim = 8
desc_number vnop_read = 9
desc_number vnop_write = 10
desc_number vnop_pagein = 11
desc_number vnop_pageout = 12
desc_number vnop_strategy = 13
desc_number vnop_mmap = 14
desc_number vnop_rename = 15
desc_number vnop_pathconf = 16
desc_number vnop_exchange = 17
desc_number vnop_default = 18

all_descs : List VnodeopDesc
all_descs =
    vnop_lookup ∷ vnop_create ∷ vnop_whiteout ∷ vnop_mknod ∷ vnop_open ∷ vnop_close ∷ vnop_access
    ∷ vnop_inactive ∷ vnop_reclaim ∷ vnop_read ∷ vnop_write ∷ vnop_pagein ∷ vnop_pageout
    ∷ vnop_strategy ∷ vnop_mmap ∷ vnop_rename ∷ vnop_pathconf ∷ vnop_exchange ∷ vnop_default ∷ []

-- The comparison of two descriptor pointers.
unfoldable pub desc_eq : VnodeopDesc → VnodeopDesc → Bool
unfolding desc_number
desc_eq a b = desc_number a == desc_number b

desc_at : (d : VnodeopDesc) → get_or all_descs (desc_number d) vnop_default ≡ d
unfolding desc_number all_descs
desc_at vnop_lookup = refl
desc_at _ = refl

pub desc_eq_refl : (a : VnodeopDesc) → desc_eq a a ≡ true
unfolding desc_eq
desc_eq_refl a = ==_refl (desc_number a)

pub eq_of_desc_eq : (a b : VnodeopDesc) → desc_eq a b ≡ true → a ≡ b
unfolding desc_eq
eq_of_desc_eq a b h =
    sym (desc_at a) ∙ ap (λ n. get_or all_descs n vnop_default) (eq_of_== _ _ h) ∙ desc_at b
