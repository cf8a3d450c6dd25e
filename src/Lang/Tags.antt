-- ===== src/Lang/Tags.antt =====
-- The tags of the languages of each rule of forms (lang/plural.go).
use tug.Common.{List, [], ◌∷◌, Bytes}

-- az, bo, dz, id, ja, jv, ka, km, kn, ko, ms, th, tr, vi, zh.
abbrev pub one_form_tags : List Bytes
one_form_tags =
    (97 ∷ 122 ∷ [])
    ∷ (98 ∷ 111 ∷ [])
    ∷ (100 ∷ 122 ∷ [])
    ∷ (105 ∷ 100 ∷ [])
    ∷ (106 ∷ 97 ∷ [])
    ∷ (106 ∷ 118 ∷ [])
    ∷ (107 ∷ 97 ∷ [])
    ∷ (107 ∷ 109 ∷ [])
    ∷ (107 ∷ 110 ∷ [])
    ∷ (107 ∷ 111 ∷ [])
    ∷ (109 ∷ 115 ∷ [])
    ∷ (116 ∷ 104 ∷ [])
    ∷ (116 ∷ 114 ∷ [])
    ∷ (118 ∷ 105 ∷ [])
    ∷ (122 ∷ 104 ∷ [])
    ∷ []

-- af, bn, bg, ca, da, de, el, en, eo, es, et, eu, fa, fi, fo, fur, fy, gl, gu, ha, he, hu, is, it, ku,
-- lb, ml, mn, mr, nah, nb, ne, nl, nn, no, oc, om, or, pa, pap, ps, pt, so, sq, sv, sw, ta, te, tk,
-- ur, zu.
abbrev pub one_or_many_tags : List Bytes
one_or_many_tags =
    (97 ∷ 102 ∷ [])
    ∷ (98 ∷ 110 ∷ [])
    ∷ (98 ∷ 103 ∷ [])
    ∷ (99 ∷ 97 ∷ [])
    ∷ (100 ∷ 97 ∷ [])
    ∷ (100 ∷ 101 ∷ [])
    ∷ (101 ∷ 108 ∷ [])
    ∷ (101 ∷ 110 ∷ [])
    ∷ (101 ∷ 111 ∷ [])
    ∷ (101 ∷ 115 ∷ [])
    ∷ (101 ∷ 116 ∷ [])
    ∷ (101 ∷ 117 ∷ [])
    ∷ (102 ∷ 97 ∷ [])
    ∷ (102 ∷ 105 ∷ [])
    ∷ (102 ∷ 111 ∷ [])
    ∷ (102 ∷ 117 ∷ 114 ∷ [])
    ∷ (102 ∷ 121 ∷ [])
    ∷ (103 ∷ 108 ∷ [])
    ∷ (103 ∷ 117 ∷ [])
    ∷ (104 ∷ 97 ∷ [])
    ∷ (104 ∷ 101 ∷ [])
    ∷ (104 ∷ 117 ∷ [])
    ∷ (105 ∷ 115 ∷ [])
    ∷ (105 ∷ 116 ∷ [])
    ∷ (107 ∷ 117 ∷ [])
    ∷ (108 ∷ 98 ∷ [])
    ∷ (109 ∷ 108 ∷ [])
    ∷ (109 ∷ 110 ∷ [])
    ∷ (109 ∷ 114 ∷ [])
    ∷ (110 ∷ 97 ∷ 104 ∷ [])
    ∷ (110 ∷ 98 ∷ [])
    ∷ (110 ∷ 101 ∷ [])
    ∷ (110 ∷ 108 ∷ [])
    ∷ (110 ∷ 110 ∷ [])
    ∷ (110 ∷ 111 ∷ [])
    ∷ (111 ∷ 99 ∷ [])
    ∷ (111 ∷ 109 ∷ [])
    ∷ (111 ∷ 114 ∷ [])
    ∷ (112 ∷ 97 ∷ [])
    ∷ (112 ∷ 97 ∷ 112 ∷ [])
    ∷ (112 ∷ 115 ∷ [])
    ∷ (112 ∷ 116 ∷ [])
    ∷ (115 ∷ 111 ∷ [])
    ∷ (115 ∷ 113 ∷ [])
    ∷ (115 ∷ 118 ∷ [])
    ∷ (115 ∷ 119 ∷ [])
    ∷ (116 ∷ 97 ∷ [])
    ∷ (116 ∷ 101 ∷ [])
    ∷ (116 ∷ 107 ∷ [])
    ∷ (117 ∷ 114 ∷ [])
    ∷ (122 ∷ 117 ∷ [])
    ∷ []

-- am, bh, fil, fr, gun, hi, hy, ln, mg, nso, pt_br, ti, wa, xbr.
abbrev pub up_to_one_tags : List Bytes
up_to_one_tags =
    (97 ∷ 109 ∷ [])
    ∷ (98 ∷ 104 ∷ [])
    ∷ (102 ∷ 105 ∷ 108 ∷ [])
    ∷ (102 ∷ 114 ∷ [])
    ∷ (103 ∷ 117 ∷ 110 ∷ [])
    ∷ (104 ∷ 105 ∷ [])
    ∷ (104 ∷ 121 ∷ [])
    ∷ (108 ∷ 110 ∷ [])
    ∷ (109 ∷ 103 ∷ [])
    ∷ (110 ∷ 115 ∷ 111 ∷ [])
    ∷ (112 ∷ 116 ∷ 95 ∷ 98 ∷ 114 ∷ [])
    ∷ (116 ∷ 105 ∷ [])
    ∷ (119 ∷ 97 ∷ [])
    ∷ (120 ∷ 98 ∷ 114 ∷ [])
    ∷ []

-- be, bs, hr, ru, sh, sr, uk.
abbrev pub slavic_tags : List Bytes
slavic_tags =
    (98 ∷ 101 ∷ [])
    ∷ (98 ∷ 115 ∷ [])
    ∷ (104 ∷ 114 ∷ [])
    ∷ (114 ∷ 117 ∷ [])
    ∷ (115 ∷ 104 ∷ [])
    ∷ (115 ∷ 114 ∷ [])
    ∷ (117 ∷ 107 ∷ [])
    ∷ []

-- cs, sk.
abbrev pub czech_tags : List Bytes
czech_tags = (99 ∷ 115 ∷ []) ∷ (115 ∷ 107 ∷ []) ∷ []

-- ga.
abbrev pub irish_tags : List Bytes
irish_tags = (103 ∷ 97 ∷ []) ∷ []

-- lt.
abbrev pub lithuanian_tags : List Bytes
lithuanian_tags = (108 ∷ 116 ∷ []) ∷ []

-- sl.
abbrev pub slovenian_tags : List Bytes
slovenian_tags = (115 ∷ 108 ∷ []) ∷ []

-- mk.
abbrev pub macedonian_tags : List Bytes
macedonian_tags = (109 ∷ 107 ∷ []) ∷ []

-- mt.
abbrev pub maltese_tags : List Bytes
maltese_tags = (109 ∷ 116 ∷ []) ∷ []

-- lv.
abbrev pub latvian_tags : List Bytes
latvian_tags = (108 ∷ 118 ∷ []) ∷ []

-- pl.
abbrev pub polish_tags : List Bytes
polish_tags = (112 ∷ 108 ∷ []) ∷ []

-- cy.
abbrev pub welsh_tags : List Bytes
welsh_tags = (99 ∷ 121 ∷ []) ∷ []

-- ro.
abbrev pub romanian_tags : List Bytes
romanian_tags = (114 ∷ 111 ∷ []) ∷ []

-- ar.
abbrev pub arabic_tags : List Bytes
arabic_tags = (97 ∷ 114 ∷ []) ∷ []
