-- ===== src/Worker/Tests.antt =====
-- The frames of a small memory, and the theorems on replacement at it.
use tp_ssoo_2c.Base.{ℕ, suc, zero, ◌≡◌, ◌<◌, refl, true, some, [], ◌∷◌, arith}
use tp_ssoo_2c.Worker.{NodoPagina, NodoMarco, Memoria, pagina_en, nodo}
use tp_ssoo_2c.Worker.Replacement.{victima_lru, victima_clock_m}
use tp_ssoo_2c.Worker.Lru.{Minimo, Esta, victima_lru-Minimo}
use tp_ssoo_2c.Worker.Ring.{BienFormada}
use tp_ssoo_2c.Worker.Clock.{Elegida, victima_clock_m-Elegida}

abbrev pagina_a : NodoPagina
pagina_a = record {
  nro_pagina = 4;
  nro_marco = some 0;
  modificado = true;
  uso = true;
  presencia = true;
}

abbrev pagina_b : NodoPagina
pagina_b = record {
  nro_pagina = 0;
  nro_marco = some 1;
  modificado = true;
  uso = true;
  presencia = true;
}

abbrev marco_0 : NodoMarco
marco_0 = record { identificador = "a:uno"; puntero_marco = 65 ∷ []; time = 12; pagina = some 1 }

abbrev marco_1 : NodoMarco
marco_1 = record { identificador = "a:dos"; puntero_marco = 66 ∷ []; time = 7; pagina = some 0 }

abbrev memoria : Memoria
memoria = record {
  marco = marco_0 ∷ marco_1 ∷ [];
  victima_clock = 1;
  paginas = some pagina_b ∷ some pagina_a ∷ [];
  file_tag_pages = [];
  asignados = 0;
  bit_map = true ∷ true ∷ [];
  tam_pagina = 1;
  lecturas = 0;
}

memoria_cargada : (i : ℕ) → i < 2 → (p : NodoPagina) × (pagina_en i memoria ≡ some p)
unfolding pagina_en nodo
memoria_cargada zero h = (pagina_a, refl)
memoria_cargada (suc zero) h = (pagina_b, refl)
memoria_cargada (suc (suc i)) h = absurd (omega arith)

memoria_numerada : (i : ℕ) (p : NodoPagina) → pagina_en i memoria ≡ some p → p.nro_marco ≡ some i
unfolding pagina_en nodo
memoria_numerada zero p h = ground arith
memoria_numerada (suc zero) p h = ground arith
memoria_numerada (suc (suc i)) p h = absurd (ground arith)

memoria-BienFormada : BienFormada memoria
memoria-BienFormada = record {
  puntero = omega arith;
  cargada = memoria_cargada;
  numerada = memoria_numerada;
}

victima_clock_m-Elegida_example :
    (s' : Memoria) × (victima_clock_m memoria ≡ some s') × Elegida memoria s'
victima_clock_m-Elegida_example = victima_clock_m-Elegida memoria memoria-BienFormada

victima_lru-Minimo_example :
    (v : NodoMarco) × (victima_lru (marco_0 ∷ marco_1 ∷ []) ≡ some v)
    × Esta v (marco_0 ∷ marco_1 ∷ [])
    × Minimo v (marco_0 ∷ marco_1 ∷ [])
victima_lru-Minimo_example = victima_lru-Minimo marco_0 (marco_1 ∷ [])
