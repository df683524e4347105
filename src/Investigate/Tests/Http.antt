-- ===== src/Investigate/Tests/Http.antt =====
-- Runs of the client of openqa_llm_investigate/http.py.
use os_autoinst_scripts.Prelude.{◌*◌, ◌≡◌, refl, none, some, List, [], ◌∷◌, arith}
use os_autoinst_scripts.Py.Str.{Str, codes}
use os_autoinst_scripts.Py.Num.{decimal}
use os_autoinst_scripts.Investigate.Http.{Client, add_chunks, nothing_streamed, capped}
use os_autoinst_scripts.Investigate.Http.Stream.{kept, all_of, add_chunks_lem, capped-whole}

abbrev chunks : List Str
chunks = codes "abc" ∷ codes "d" ∷ codes "efgh" ∷ []

abbrev client : Client
client = record { get = λ path. none; stream = λ path. some chunks; decode = λ bytes. bytes }

abbrev offline : Client
offline = record { get = λ path. none; stream = λ path. none; decode = λ bytes. bytes }

add_chunks_lem_example : add_chunks 2 nothing_streamed chunks ≡ kept 2 (all_of chunks)
add_chunks_lem_example = add_chunks_lem 2 chunks (omega arith)

capped-whole_example : capped client (codes "/x") (2 * 4) ≡ some (client.decode (all_of chunks))
capped-whole_example = capped-whole client (codes "/x") chunks 4 refl (omega arith) (omega arith)

cut_test :
    capped client (codes "/x") 4
    ≡ some (codes "ab\n[... 4 bytes omitted from the middle of this file ...]\ngh")
unfolding capped decimal
cut_test = refl

-- A body whose length is an odd cap loses a byte.
odd_test :
    capped
      (record { get = λ path. none; stream = λ path. some (codes "abc" ∷ []); decode = λ b. b })
      (codes "/x")
      3
    ≡ some (codes "ac")
unfolding capped
odd_test = refl
