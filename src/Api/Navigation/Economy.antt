-- ===== src/Api/Navigation/Economy.antt =====
-- api/navigation.go: the items under "Economy".
use dp_topic_api.Prelude.{String}
use dp_topic_api.Models.Navigation.{TopicNonReferential, SubtopicItems, topic, absent, item, end}
use dp_topic_api.Api.Navigation.Entry.{entry, link_to}
use dp_topic_api.Api.Navigation.Labels.{label}

unfoldable pub economy_subtopics : String → SubtopicItems
unfolding label
economy_subtopics lang =
    (item
      (topic
        (entry "Economic output and productivity"
          "Manufacturing, production and services indices (measuring total economic output) and productivity (measuring efficiency, expressed as a ratio of output to input over a given period of time, for example output per person per hour)."
          "economic-output-and-productivity" (label "economic-output-and-productivity" lang)
          (link_to "economicoutputandproductivity" "/topics/economicoutputandproductivity")
          "/economy/economicoutputandproductivity")
        absent)
      (item
        (topic
          (entry "Environmental accounts"
            "Environmental accounts show how the environment contributes to the economy (for example, through the extraction of raw materials), the impacts that the economy has on the environment (for example, energy consumption and air emissions), and how society responds to environmental issues (for example, through taxation and expenditure on environmental protection)."
            "environmental-accounts" (label "environmental-accounts" lang)
            (link_to "environmentalaccounts" "/topics/environmentalaccounts")
            "/economy/environmentalaccounts")
          absent)
        (item
          (topic
            (entry "Government, public sector and taxes"
              "Public sector spending, tax revenues and investments for the UK, including government debt and deficit (the gap between revenue and spending), research and development, and the effect of taxes."
              "government-public-sector-and-taxes" (label "government-public-sector-and-taxes" lang)
              (link_to "governmentpublicsectorandtaxes" "/topics/governmentpublicsectorandtaxes")
              "/economy/governmentpublicsectorandtaxes")
            absent)
          (item
            (topic
              (entry "Gross Domestic Product (GDP)"
                "Estimates of GDP are released on a monthly and quarterly basis. Monthly estimates are released alongside other short-term economic indicators. The two quarterly estimates contain data from all three approaches to measuring GDP and are called the First quarterly estimate of GDP and the Quarterly National Accounts. Data sources feeding into the two types of releases are consistent with each other."
                "gross-domestic-product-gdp" (label "gross-domestic-product-gdp" lang)
                (link_to "grossdomesticproductgdp" "/topics/grossdomesticproductgdp")
                "/economy/grossdomesticproductgdp")
              absent)
            (item
              (topic
                (entry "Gross Value Added (GVA)"
                  "Regional gross value added using production (GVA(P)) and income (GVA(I)) approaches. Regional gross value added is the value generated by any unit engaged in the production of goods and services. GVA per head is a useful way of comparing regions of different sizes. It is not, however, a measure of regional productivity."
                  "gross-value-added-gva" (label "gross-value-added-gva" lang)
                  (link_to "grossvalueaddedgva" "/topics/grossvalueaddedgva")
                  "/economy/grossvalueaddedgva")
                absent)
              (item
                (topic
                  (entry "Inflation and price indices"
                    "The rate of increase in prices for goods and services. Measures of inflation and prices include consumer price inflation, producer price inflation, the house price index, index of private housing rental prices, and construction output price indices. "
                    "inflation-and-price-indices" (label "inflation-and-price-indices" lang)
                    (link_to "inflationandpriceindices" "/topics/inflationandpriceindices")
                    "/economy/inflationandpriceindices")
                  absent)
                (item
                  (topic
                    (entry "Investments, pensions and trusts"
                      "Net flows of investment into the UK, the number of people who hold pensions of different types, and investments made by various types of trusts. "
                      "investments-pensions-and-trusts"
                      (label "investments-pensions-and-trusts" lang)
                      (link_to "investmentspensionsandtrusts"
                        "/topics/investmentspensionsandtrusts")
                      "/economy/investmentspensionsandtrusts")
                    absent)
                  (item
                    (topic
                      (entry "National accounts"
                        "Core accounts for the UK economy as a whole; individual sectors (sector accounts); accounts for the regions, subregions and local areas of the UK; and satellite accounts that cover activities linked to the economy. The national accounts framework brings units and transactions together to provide a simple and understandable description of production, income, consumption, accumulation and wealth."
                        "national-accounts" (label "national-accounts" lang)
                        (link_to "nationalaccounts" "/topics/nationalaccounts")
                        "/economy/nationalaccounts")
                      absent)
                    (item
                      (topic
                        (entry "Regional accounts"
                          "Accounts for regions, sub-regions and local areas of the UK. These accounts allow comparisons between regions and against a UK average. Statistics include regional gross value added (GVA) and figures on regional gross disposable household income (GDHI)."
                          "regional-accounts" (label "regional-accounts" lang)
                          (link_to "regionalaccounts" "/topics/regionalaccounts")
                          "/economy/regionalaccounts")
                        absent)
                      end)))))))))

unfoldable pub economy_item : String → TopicNonReferential
unfolding label economy_subtopics
economy_item lang =
    topic
      (entry "Economy"
        "UK economic activity covering production, distribution, consumption and trade of goods and services. Individuals, businesses, organisations and governments all affect the development of the economy."
        "economy" (label "economy" lang) (link_to "economy" "/topics/economy") "/economy")
      (economy_subtopics lang)
