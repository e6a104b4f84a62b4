-- ===== src/Worker/FlatTests.antt =====
-- A File:Tag of two pages, in frames in the other order, with a read and a write over both.
use tp_ssoo_2c.Base.{
  ℕ, zero, suc, ◌*◌, ◌-◌, ◌≡◌, refl, some, List, [], ◌∷◌, get_elem?, length, take, drop, arith,
}
use tp_ssoo_2c.Worker.{NodoPagina, FileTag, Memoria, nodo}
use tp_ssoo_2c.Worker.Machine.{Estado, hecho}
use tp_ssoo_2c.Worker.Tables.{file_tag_de, buscar_file_tag}
use tp_ssoo_2c.Worker.Frames.{ceil, pisar}
use tp_ssoo_2c.Worker.Pages.{escribir_pagina, leer_bytes}
use tp_ssoo_2c.Worker.MemoryTests.{almacen, entorno, pagina_0, frame_0, frame_1, a_uno, cargada}
use tp_ssoo_2c.Worker.Flat.{bytes_de, Misma, Cargado}
use tp_ssoo_2c.Worker.Blocks.{aplanar}
use tp_ssoo_2c.Worker.FlatTouch.{marco_de, Separadas, SinRepetir}
use tp_ssoo_2c.Worker.FlatRest.{Escrita}
use tp_ssoo_2c.Worker.FlatRead.{leer_bytes-aplanar}
use tp_ssoo_2c.Worker.FlatWrite.{escribir_pagina-aplanar}

abbrev de_dos : FileTag
de_dos = record a_uno { cantidad_paginas = 2; tabla_paginas = 0 ∷ 1 ∷ [] }

abbrev dos_paginas : Memoria
dos_paginas = record cargada {
  marco =
      record frame_1 { puntero_marco = 5 ∷ 6 ∷ 7 ∷ 8 ∷ []; pagina = some 1 }
      ∷ record frame_0 { pagina = some 0 }
      ∷ [];
  paginas =
      some (record pagina_0 { nro_marco = some 1 })
      ∷ some (record pagina_0 { nro_pagina = 1 })
      ∷ [];
  file_tag_pages = de_dos ∷ [];
}

abbrev estado_dos : Estado almacen.State
estado_dos = record { memoria = dos_paginas; almacen = tt; avisos = [] }

abbrev dos_bloques : List (List ℕ)
dos_bloques = (1 ∷ 2 ∷ 3 ∷ 4 ∷ []) ∷ (5 ∷ 6 ∷ 7 ∷ 8 ∷ []) ∷ []

en_tabla_dos :
    (j : ℕ) (b : List ℕ)
    → get_elem? dos_bloques j ≡ some b
    → (a : ℕ) × (get_elem? de_dos.tabla_paginas j ≡ some a) × (bytes_de dos_paginas a ≡ some b)
unfolding bytes_de nodo
en_tabla_dos zero b h = (0, refl, h)
en_tabla_dos (suc zero) b h = (1, refl, h)
en_tabla_dos (suc (suc j)) b h = absurd (ground arith)

enteros_dos : (j : ℕ) (b : List ℕ) → get_elem? dos_bloques j ≡ some b → length b ≡ 4
enteros_dos zero b h = ground arith
enteros_dos (suc zero) b h = ground arith
enteros_dos (suc (suc j)) b h = absurd (ground arith)

dos_paginas-Cargado : Cargado entorno dos_paginas "a:uno" de_dos dos_bloques
unfolding buscar_file_tag file_tag_de
dos_paginas-Cargado = record {
  conocido = refl;
  vivo = refl;
  en_tabla = en_tabla_dos;
  enteros = enteros_dos;
}

dos_paginas-Separadas : Separadas dos_paginas
unfolding marco_de nodo
dos_paginas-Separadas zero zero i h k = refl
dos_paginas-Separadas zero (suc zero) i h k = absurd (ground arith)
dos_paginas-Separadas zero (suc (suc b)) i h k = absurd (ground arith)
dos_paginas-Separadas (suc zero) zero i h k = absurd (ground arith)
dos_paginas-Separadas (suc zero) (suc zero) i h k = refl
dos_paginas-Separadas (suc zero) (suc (suc b)) i h k = absurd (ground arith)
dos_paginas-Separadas (suc (suc a)) b i h k = absurd (ground arith)

de_dos-SinRepetir : SinRepetir entorno de_dos
de_dos-SinRepetir zero zero a h k = refl
de_dos-SinRepetir zero (suc zero) a h k = absurd (ground arith)
de_dos-SinRepetir zero (suc (suc j)) a h k = absurd (ground arith)
de_dos-SinRepetir (suc zero) zero a h k = absurd (ground arith)
de_dos-SinRepetir (suc zero) (suc zero) a h k = refl
de_dos-SinRepetir (suc zero) (suc (suc j)) a h k = absurd (ground arith)
de_dos-SinRepetir (suc (suc i)) j a h k = absurd (ground arith)

numerada_cero : (p : NodoPagina) → nodo dos_paginas.paginas 0 ≡ some p → p.nro_pagina ≡ 0
unfolding nodo
numerada_cero p h = ground arith

leer_bytes-aplanar_example :
    (u : Memoria) × (leer_bytes entorno 0 "a:uno" 2 5 estado_dos
      ≡ hecho
          (take 5 (take (ceil 5 4 * 4 - (2 - 0 * 4)) (drop 2 (aplanar dos_bloques))))
          (record estado_dos { memoria = u }))
    × Misma dos_paginas u
leer_bytes-aplanar_example =
    leer_bytes-aplanar entorno "a:uno" de_dos dos_bloques estado_dos 0 0 2 5 dos_paginas-Cargado
      refl numerada_cero (omega arith) (omega arith) (omega arith) (omega arith)

escribir_pagina-aplanar_example :
    (u : Memoria) × (bloques' : List (List ℕ)) × (escribir_pagina entorno 0 "a:uno" 2
        (10 ∷ 11 ∷ 12 ∷ 13 ∷ 14 ∷ [])
        estado_dos
      ≡ hecho tt (record estado_dos { memoria = u }))
    × Escrita entorno "a:uno" de_dos de_dos-SinRepetir dos_paginas u dos_bloques bloques'
    × (aplanar bloques'
        ≡ pisar 2
            (take (ceil 5 4 * 4 - (2 - 0 * 4)) (10 ∷ 11 ∷ 12 ∷ 13 ∷ 14 ∷ []))
            (aplanar dos_bloques))
escribir_pagina-aplanar_example =
    escribir_pagina-aplanar entorno "a:uno" de_dos de_dos-SinRepetir estado_dos dos_bloques 0 0 2
      (10 ∷ 11 ∷ 12 ∷ 13 ∷ 14 ∷ []) dos_paginas-Cargado dos_paginas-Separadas refl numerada_cero
      (omega arith) (omega arith) (omega arith) (omega arith)
