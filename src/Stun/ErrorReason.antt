-- ===== src/Stun/ErrorReason.antt =====
-- `errorReason` of src/stun/message.cpp: the phrases as bytes.
use stice.Base.{ℕ, List, [], ◌∷◌, ◌==◌, if◌then◌else◌}

-- The phrase of each `case`, with its code.
abbrev reasons : List (ℕ × List ℕ)
reasons =
    (300, 84 ∷ 114 ∷ 121 ∷ 32 ∷ 65 ∷ 108 ∷ 116 ∷ 101 ∷ 114 ∷ 110 ∷ 97 ∷ 116 ∷ 101 ∷ [])
    ∷ (400, 66 ∷ 97 ∷ 100 ∷ 32 ∷ 82 ∷ 101 ∷ 113 ∷ 117 ∷ 101 ∷ 115 ∷ 116 ∷ [])
    ∷ (
      401,
      85 ∷ 110 ∷ 97 ∷ 117 ∷ 116 ∷ 104 ∷ 101 ∷ 110 ∷ 116 ∷ 105 ∷ 99 ∷ 97 ∷ 116 ∷ 101 ∷ 100 ∷ [],
    )
    ∷ (403, 70 ∷ 111 ∷ 114 ∷ 98 ∷ 105 ∷ 100 ∷ 100 ∷ 101 ∷ 110 ∷ [])
    ∷ (
      420,
      85 ∷ 110 ∷ 107 ∷ 110 ∷ 111 ∷ 119 ∷ 110 ∷ 32 ∷ 65 ∷ 116 ∷ 116 ∷ 114 ∷ 105 ∷ 98 ∷ 117 ∷ 116
          ∷ 101 ∷ [],
    )
    ∷ (
      437,
      65 ∷ 108 ∷ 108 ∷ 111 ∷ 99 ∷ 97 ∷ 116 ∷ 105 ∷ 111 ∷ 110 ∷ 32 ∷ 77 ∷ 105 ∷ 115 ∷ 109 ∷ 97 ∷ 116
          ∷ 99 ∷ 104 ∷ [],
    )
    ∷ (438, 83 ∷ 116 ∷ 97 ∷ 108 ∷ 101 ∷ 32 ∷ 78 ∷ 111 ∷ 110 ∷ 99 ∷ 101 ∷ [])
    ∷ (
      440,
      65 ∷ 100 ∷ 100 ∷ 114 ∷ 101 ∷ 115 ∷ 115 ∷ 32 ∷ 70 ∷ 97 ∷ 109 ∷ 105 ∷ 108 ∷ 121 ∷ 32 ∷ 110 ∷ 111
          ∷ 116 ∷ 32 ∷ 83 ∷ 117 ∷ 112 ∷ 112 ∷ 111 ∷ 114 ∷ 116 ∷ 101 ∷ 100 ∷ [],
    )
    ∷ (
      441,
      87 ∷ 114 ∷ 111 ∷ 110 ∷ 103 ∷ 32 ∷ 99 ∷ 114 ∷ 101 ∷ 100 ∷ 101 ∷ 110 ∷ 116 ∷ 105 ∷ 97 ∷ 108
          ∷ 115 ∷ [],
    )
    ∷ (
      442,
      85 ∷ 110 ∷ 115 ∷ 117 ∷ 112 ∷ 112 ∷ 111 ∷ 114 ∷ 116 ∷ 101 ∷ 100 ∷ 32 ∷ 84 ∷ 114 ∷ 97 ∷ 110
          ∷ 115 ∷ 112 ∷ 111 ∷ 114 ∷ 116 ∷ 32 ∷ 80 ∷ 114 ∷ 111 ∷ 116 ∷ 111 ∷ 99 ∷ 111 ∷ 108 ∷ [],
    )
    ∷ (
      443,
      80 ∷ 101 ∷ 101 ∷ 114 ∷ 32 ∷ 65 ∷ 100 ∷ 100 ∷ 114 ∷ 101 ∷ 115 ∷ 115 ∷ 32 ∷ 70 ∷ 97 ∷ 109 ∷ 105
          ∷ 108 ∷ 121 ∷ 32 ∷ 77 ∷ 105 ∷ 115 ∷ 109 ∷ 97 ∷ 116 ∷ 99 ∷ 104 ∷ [],
    )
    ∷ (
      486,
      65 ∷ 108 ∷ 108 ∷ 111 ∷ 99 ∷ 97 ∷ 116 ∷ 105 ∷ 111 ∷ 110 ∷ 32 ∷ 81 ∷ 117 ∷ 111 ∷ 116 ∷ 97 ∷ 32
          ∷ 82 ∷ 101 ∷ 97 ∷ 99 ∷ 104 ∷ 101 ∷ 100 ∷ [],
    )
    ∷ (500, 83 ∷ 101 ∷ 114 ∷ 118 ∷ 101 ∷ 114 ∷ 32 ∷ 69 ∷ 114 ∷ 114 ∷ 111 ∷ 114 ∷ [])
    ∷ (
      508,
      73 ∷ 110 ∷ 115 ∷ 117 ∷ 102 ∷ 102 ∷ 105 ∷ 99 ∷ 105 ∷ 101 ∷ 110 ∷ 116 ∷ 32 ∷ 67 ∷ 97 ∷ 112 ∷ 97
          ∷ 99 ∷ 105 ∷ 116 ∷ 121 ∷ [],
    )
    ∷ []

abbrev unknown_error : List ℕ
unknown_error = 85 ∷ 110 ∷ 107 ∷ 110 ∷ 111 ∷ 119 ∷ 110 ∷ 32 ∷ 69 ∷ 114 ∷ 114 ∷ 111 ∷ 114 ∷ []

unfoldable pub select_reason : List (ℕ × List ℕ) → ℕ → List ℕ
select_reason [] code = unknown_error
select_reason (case ∷ rest) code = if case.0 == code then case.1 else select_reason rest code

unfoldable pub error_reason : ℕ → List ℕ
unfolding select_reason
error_reason code = select_reason reasons code
